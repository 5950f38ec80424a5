-- ===== src/Manager/Filled.antt =====
-- The ranges that the additions of devices leave (add_io_device and clear_io_devices of
-- PAC/common/device/manager.cpp).
use ptusa_main.Common.{
  ℕ, zero, suc, ◌≤◌, ◌<◌, ◌≡◌, refl, sym, ◌∙◌, ap, ◌⊎◌, inl, inr, List, [], ◌∷◌, ◌++◌, Option, none,
  some, get_elem?, length, length-append, Bool-cases, ◌&&◌, ltb, ◌==◌, arith,
}
use mathlib.Core.List.{append-nil, append_assoc}
use ptusa_main.Manager.{
  Entry, TypeRange, DeviceManager, c_device_type_cnt, empty_manager, extend_range, add_to_range,
  add_io_device, add_all,
}

-- The number `k` is in the range.
unfoldable pub Spans : Option TypeRange → ℕ → Type 0
Spans none k = ⊥
Spans (some r) k = (r.start_pos ≤ k) × (k ≤ r.end_pos)

-- The range is of numbers that the vector has.
unfoldable pub Fits : Option TypeRange → ℕ → Type 0
Fits none n = Unit
Fits (some r) n = (r.start_pos ≤ r.end_pos) × (r.end_pos < n)

-- Ranges are of numbers of the table, and the range of a type has all devices of that type.
pub record IsFilled (m : DeviceManager) : Type 0 where
  pub fits : (t : ℕ) → Fits (m.dev_types_ranges t) (length m.project_devices)
  pub spans :
      (t k : ℕ) (e : Entry)
      → t < c_device_type_cnt
      → get_elem? m.project_devices k ≡ some e
      → e.dev_type ≡ some t
      → Spans (m.dev_types_ranges t) k

-- The elements of a vector after `push_back`.
pub get_elem?-push {ℓ} :
    {A : Type ℓ} (xs : List A) (x : A) (k : ℕ) (a : A)
    → get_elem? (xs ++ x ∷ []) k ≡ some a
    → ((k < length xs) × (get_elem? xs k ≡ some a)) ⊎ ((k ≡ length xs) × (x ≡ a))
get_elem?-push [] x zero a h = ground arith
get_elem?-push [] x (suc k) a h = ground arith
get_elem?-push (y ∷ ys) x zero a h = ground arith
get_elem?-push (y ∷ ys) x (suc k) a h = ground (arith, get_elem?-push ys x k a h)

empty_manager-IsFilled : IsFilled empty_manager
unfolding empty_manager Fits
empty_manager-IsFilled = record { fits = λ t. tt; spans = λ t k e c h u. ground arith }

Fits-suc : (r : Option TypeRange) (n : ℕ) → Fits r n → Fits r (suc n)
unfolding Fits
Fits-suc none n h = h
Fits-suc (some r) n h = ground (arith, h)

extend_range-Fits :
    (r : Option TypeRange) (n : ℕ) → Fits r n → Fits (some (extend_range n r)) (suc n)
unfolding Fits extend_range
extend_range-Fits none n h = ground arith
extend_range-Fits (some r) n h = ground (arith, h)

add_to_range-Fits :
    (ty : Option ℕ) (n : ℕ) (ranges : ℕ → Option TypeRange) (t : ℕ)
    → Fits (ranges t) n
    → Fits (add_to_range ty n ranges t) (suc n)
unfolding add_to_range
add_to_range-Fits none n ranges t h = Fits-suc (ranges t) n h
add_to_range-Fits (some u) n ranges t h = elim (Bool-cases (t == u && ltb u c_device_type_cnt)) [
  | inl e ↦ rw e (extend_range-Fits (ranges t) n h)
  | inr e ↦ rw e (Fits-suc (ranges t) n h)
]

extend_range-Spans :
    (r : Option TypeRange) (n k : ℕ)
    → k ≤ n
    → Fits r n
    → Spans r k ⊎ (k ≡ n)
    → Spans (some (extend_range n r)) k
unfolding Spans Fits extend_range
extend_range-Spans none n k b f h = ground (arith, h)
extend_range-Spans (some r) n k b f h = ground (arith, f, h)

-- An older device stays in its range.
add_to_range-Spans :
    (ty : Option ℕ) (n k : ℕ) (ranges : ℕ → Option TypeRange) (t : ℕ)
    → k < n
    → Fits (ranges t) n
    → Spans (ranges t) k
    → Spans (add_to_range ty n ranges t) k
unfolding add_to_range
add_to_range-Spans none n k ranges t b f h = h
add_to_range-Spans (some u) n k ranges t b f h =
    elim (Bool-cases (t == u && ltb u c_device_type_cnt)) [
      | inl e ↦ rw e (extend_range-Spans (ranges t) n k (omega (arith, b)) f (inl h))
      | inr e ↦ rw e h
    ]

-- The device that is added is in the range of its type.
add_to_range-Spans_new :
    (ty : Option ℕ) (n : ℕ) (ranges : ℕ → Option TypeRange) (t : ℕ)
    → Fits (ranges t) n
    → t < c_device_type_cnt
    → ty ≡ some t
    → Spans (add_to_range ty n ranges t) n
unfolding add_to_range
add_to_range-Spans_new none n ranges t f c h = ground arith
add_to_range-Spans_new (some u) n ranges t f c h =
    elim (Bool-cases (t == u && ltb u c_device_type_cnt)) [
      | inl e ↦ rw e (extend_range-Spans (ranges t) n n (omega arith) f (inr refl))
      | inr e ↦ ground (arith, h, e, c)
    ]

length-push {ℓ} : {A : Type ℓ} (xs : List A) (x : A) → length (xs ++ x ∷ []) ≡ suc (length xs)
length-push xs x = omega (arith, length-append xs (x ∷ []))

add_io_device-IsFilled : (e : Entry) (m : DeviceManager) → IsFilled m → IsFilled (add_io_device e m)
unfolding add_io_device
add_io_device-IsFilled e m f = record {
  fits = λ t.
      rw (length-push m.project_devices e)
        (add_to_range-Fits e.dev_type (length m.project_devices) m.dev_types_ranges t (f.fits t));
  spans = λ t k a c h u. elim (get_elem?-push m.project_devices e k a h) [
    | inl (b, old) ↦
        add_to_range-Spans e.dev_type (length m.project_devices) k m.dev_types_ranges t b (f.fits t)
          (f.spans t k a c old u)
    | inr (last, new) ↦ rw last (
        add_to_range-Spans_new e.dev_type (length m.project_devices) m.dev_types_ranges t (f.fits t)
          c (ap (λ b. b.dev_type) new ∙ u))
  ];
}

add_all-IsFilled_from : (es : List Entry) (m : DeviceManager) → IsFilled m → IsFilled (add_all es m)
unfolding add_all
add_all-IsFilled_from [] m f = f
add_all-IsFilled_from (e ∷ es) m f =
    add_all-IsFilled_from es (add_io_device e m) (add_io_device-IsFilled e m f)

pub add_all-IsFilled : (es : List Entry) → IsFilled (add_all es empty_manager)
add_all-IsFilled es = add_all-IsFilled_from es empty_manager empty_manager-IsFilled

project_devices-add_all :
    (es : List Entry) (m : DeviceManager) → (add_all es m).project_devices ≡ m.project_devices ++ es
unfolding add_all add_io_device
project_devices-add_all [] m = sym (append-nil m.project_devices)
project_devices-add_all (e ∷ es) m =
    project_devices-add_all es (add_io_device e m) ∙ append_assoc m.project_devices (e ∷ []) es

-- From the empty table the vector is the list of the additions.
pub devices-add_all : (es : List Entry) → (add_all es empty_manager).project_devices ≡ es
unfolding empty_manager
devices-add_all es = project_devices-add_all es empty_manager
