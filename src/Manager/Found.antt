-- ===== src/Manager/Found.antt =====
-- What device_manager::get_device_n finds (PAC/common/device/manager.cpp).
use ptusa_main.Common.{
  ℕ, zero, suc, ◌+◌, ◌-◌, ◌*◌, ◌/◌, ◌^◌, ◌≤◌, ◌<◌, ◌≡◌, refl, sym, ◌∙◌, ap, ◌⊎◌, inl, inr, List, [],
  ◌∷◌, Option, none, some, false, get_elem?, length, Bool-cases, leb, ltb, lt→ltb, arith,
}
use mathlib.Core.Path.{subst}
use ptusa_main.Manager.{Name, Entry, TypeRange, empty_manager, add_all, c_device_type_cnt}
use ptusa_main.Manager.Strings.{Sign, strcmp, strcmp_refl, strcmp_same, strcmp_flip, Sign-cases}
use ptusa_main.Manager.Search.{
  Result, probe, search_loop, search_range, get_device_n, search_types, get_device_n_any,
}
use ptusa_main.Manager.Filled.{Fits, Spans, add_all-IsFilled, devices-add_all}

-- A result that names a device of the name, or none.
pub data Answers (devices : List Entry) (dev_name : Name) : Result → Type 0 where
  no_device : Answers devices dev_name Result.absent
  device :
      (i : ℕ) (e : Entry)
      → get_elem? devices i ≡ some e
      → e.name ≡ dev_name
      → Answers devices dev_name (Result.found i)

-- Between the bounds the names stand in the order of `strcmp`.
abbrev pub IsSorted : List Entry → ℕ → ℕ → Type 0
IsSorted devices l hi =
    (i j : ℕ) (a b : Entry)
    → l ≤ i
    → i < j
    → j < hi
    → get_elem? devices i ≡ some a
    → get_elem? devices j ≡ some b
    → strcmp a.name b.name ≡ Sign.before

get_elem?-lt {ℓ} :
    {A : Type ℓ} (xs : List A) (i : ℕ) → i < length xs → (a : A) × (get_elem? xs i ≡ some a)
get_elem?-lt [] i h = absurd (omega (arith, h))
get_elem?-lt (x ∷ xs) zero h = (x, refl)
get_elem?-lt (x ∷ xs) (suc i) h = get_elem?-lt xs i (omega (arith, h))

pow_suc : (n : ℕ) → 2 ^ suc n ≡ 2 * 2 ^ n
pow_suc n = omega arith

-- The middle of a range that is not empty, and the halves that are left.
middle_lt : (l hi : ℕ) → leb hi l ≡ false → (l ≤ (l + (hi - 1)) / 2) × ((l + (hi - 1)) / 2 < hi)
middle_lt l hi h = ground arith

halves :
    (fuel l hi : ℕ)
    → leb hi l ≡ false
    → hi - l < 2 ^ suc fuel
    → (hi - ((l + (hi - 1)) / 2 + 1) < 2 ^ fuel) × ((l + (hi - 1)) / 2 - l < 2 ^ fuel)
halves fuel l hi h b = let c : l < hi = ground (arith, h) in omega (arith, b, c)

module _ (devices : List Entry) (dev_name : Name) where
  -- A round that reads the device `a`.
  search_loop-round :
      (fuel l hi : ℕ) (a : Entry)
      → leb hi l ≡ false
      → get_elem? devices ((l + (hi - 1)) / 2) ≡ some a
      → search_loop devices dev_name (suc fuel) l hi ≡ elim (strcmp dev_name a.name) [
        | Sign.same ↦ Result.found ((l + (hi - 1)) / 2)
        | Sign.after ↦ search_loop devices dev_name fuel ((l + (hi - 1)) / 2 + 1) hi
        | Sign.before ↦ search_loop devices dev_name fuel l ((l + (hi - 1)) / 2)
      ]
  unfolding search_loop probe
  search_loop-round fuel l hi a e g = rw (e, g) refl

  search_loop-Answers :
      (fuel l hi : ℕ)
      → hi ≤ length devices
      → hi - l < 2 ^ fuel
      → Answers devices dev_name (search_loop devices dev_name fuel l hi)
  unfolding search_loop
  search_loop-Answers zero l hi b f = elim (Bool-cases (leb hi l)) [
    | inl e ↦ rw e Answers.no_device
    | inr e ↦ absurd (ground (arith, e, f))
  ]
  search_loop-Answers (suc fuel) l hi b f = elim (Bool-cases (leb hi l)) [
    | inl e ↦ rw e Answers.no_device
    | inr e ↦
        (let m = middle_lt l hi e in
          let read = get_elem?-lt devices ((l + (hi - 1)) / 2) (omega (arith, m.1, b)) in
          let half = halves fuel l hi e f in
          rw (search_loop-round fuel l hi read.0 e read.1)
            (elim (Sign-cases (strcmp dev_name (read.0).name)) [
              | inl s ↦ rw s (
                  Answers.device ((l + (hi - 1)) / 2) read.0 read.1
                    (sym (strcmp_same dev_name (read.0).name s)))
              | inr (inl s) ↦ rw s (search_loop-Answers fuel ((l + (hi - 1)) / 2 + 1) hi b half.0)
              | inr (inr s) ↦
                  rw s
                    (search_loop-Answers fuel l ((l + (hi - 1)) / 2) (omega (arith, m.1, b)) half.1)
            ]))
  ]

-- Where names are in order, the comparison of two of them is that of their numbers.
ℕ-cases : (i k : ℕ) → (i < k) ⊎ ((i ≡ k) ⊎ (k < i))
ℕ-cases i k = omega arith

data Placed (i k : ℕ) : Sign → Type 0 where
  here : k ≡ i → Placed i k Sign.same
  above : i < k → Placed i k Sign.after
  below : k < i → Placed i k Sign.before

strcmp-Placed :
    (devices : List Entry) (l hi i k : ℕ) (a e : Entry)
    → IsSorted devices l hi
    → l ≤ i
    → i < hi
    → l ≤ k
    → k < hi
    → get_elem? devices i ≡ some a
    → get_elem? devices k ≡ some e
    → Placed i k (strcmp e.name a.name)
strcmp-Placed devices l hi i k a e s li ih lk kh g h = elim (ℕ-cases i k) [
  | inl lt ↦ rw (strcmp_flip a.name e.name (s i k a e li lt kh g h)) (Placed.above lt)
  | inr (inl eq) ↦
      (let same_entry : a ≡ e = ground (arith, g, h, eq) in
        rw (← same_entry, strcmp_refl a.name) (Placed.here (sym eq)))
  | inr (inr gt) ↦ rw (s k i e a lk gt ih h g) (Placed.below gt)
]

-- What a round gives, where the halves give `k`.
turn :
    {i k : ℕ} {up down : Result} (g : Sign)
    → Placed i k g
    → (i < k → up ≡ Result.found k)
    → (k < i → down ≡ Result.found k)
    → elim g [ Sign.same ↦ Result.found i | Sign.after ↦ up | Sign.before ↦ down ] ≡ Result.found k
turn Sign.same (Placed.here e) up down = ap Result.found (sym e)
turn Sign.after (Placed.above c) up down = up c
turn Sign.before (Placed.below c) up down = down c

search_loop-found :
    (devices : List Entry) (fuel l hi k : ℕ) (e : Entry)
    → hi ≤ length devices
    → hi - l < 2 ^ fuel
    → IsSorted devices l hi
    → l ≤ k
    → k < hi
    → get_elem? devices k ≡ some e
    → search_loop devices e.name fuel l hi ≡ Result.found k
search_loop-found devices zero l hi k e b f s lo up g = absurd (omega (arith, f, lo, up))
search_loop-found devices (suc fuel) l hi k e b f s lo up g =
    let ne : leb hi l ≡ false = ground (arith, lo, up) in
    let m = middle_lt l hi ne in
    let i = (l + (hi - 1)) / 2 in
    let read = get_elem?-lt devices i (omega (arith, m.1, b)) in
    let half = halves fuel l hi ne f in
    search_loop-round devices e.name fuel l hi read.0 ne read.1
    ∙ turn (strcmp e.name (read.0).name)
        (strcmp-Placed devices l hi i k read.0 e s m.0 m.1 lo up read.1 g)
        (λ c.
          search_loop-found devices fuel (i + 1) hi k e b half.0
            (λ x y a' b' lx. s x y a' b' (omega (arith, m.0, lx))) (omega (arith, c)) up g)
        (λ c.
          search_loop-found devices fuel l i k e (omega (arith, m.1, b)) half.1
            (λ x y a' b' lx xy yi. s x y a' b' lx xy (omega (arith, yi, m.1))) lo c g)

-- From the first device of a type to the last one, names are in order.
unfoldable pub IsByName : List Entry → Option TypeRange → Type 0
IsByName devices none = Unit
IsByName devices (some r) = IsSorted devices r.start_pos (r.end_pos + 1)

search_range-Answers :
    (devices : List Entry) (dev_name : Name) (fuel : ℕ) (r : Option TypeRange)
    → Fits r (length devices)
    → length devices < 2 ^ fuel
    → Answers devices dev_name (search_range fuel devices dev_name r)
unfolding search_range Fits
search_range-Answers devices dev_name fuel none h f = Answers.no_device
search_range-Answers devices dev_name fuel (some r) h f =
    search_loop-Answers devices dev_name fuel r.start_pos (r.end_pos + 1) (omega (arith, h.1))
      (omega (arith, h.1, f))

search_range-found :
    (devices : List Entry) (fuel k : ℕ) (e : Entry) (r : Option TypeRange)
    → Fits r (length devices)
    → Spans r k
    → IsByName devices r
    → length devices < 2 ^ fuel
    → get_elem? devices k ≡ some e
    → search_range fuel devices e.name r ≡ Result.found k
unfolding search_range Fits Spans IsByName
search_range-found devices fuel k e none h b s f g = absurd b
search_range-found devices fuel k e (some r) h b s f g =
    search_loop-found devices fuel r.start_pos (r.end_pos + 1) k e (omega (arith, h.1))
      (omega (arith, h.1, f)) s b.0 (omega (arith, b.1)) g

-- After any additions of devices, in any order, the search of get_device_n for any name in the
-- range of any type ends within n rounds where there are less than 2 ^ n devices, reads only within
-- the table, and gives no device or one that has the name.
pub get_device_n-Answers :
    (es : List Entry) (fuel t : ℕ) (dev_name : Name)
    → length es < 2 ^ fuel
    → Answers es dev_name (get_device_n fuel (add_all es empty_manager) t dev_name)
unfolding get_device_n
get_device_n-Answers es fuel t dev_name f = elim (Bool-cases (ltb t c_device_type_cnt)) [
  | inl e ↦
      rw (e, devices-add_all es)
        (search_range-Answers es dev_name fuel ((add_all es empty_manager).dev_types_ranges t)
          (subst (λ ds. Fits ((add_all es empty_manager).dev_types_ranges t) (length ds))
            (devices-add_all es) ((add_all-IsFilled es).fits t))
          f)
  | inr e ↦ rw e Answers.no_device
]

-- After any additions of devices, where the names from the first device of a type to its last one
-- are in the order of strcmp, get_device_n finds every device of that type, which is one of the 26,
-- by its name, at the number at which it was added, within n rounds of the search where there are
-- less than 2 ^ n devices.
pub get_device_n-added :
    (es : List Entry) (fuel k t : ℕ) (e : Entry)
    → get_elem? es k ≡ some e
    → e.dev_type ≡ some t
    → t < c_device_type_cnt
    → IsByName es ((add_all es empty_manager).dev_types_ranges t)
    → length es < 2 ^ fuel
    → get_device_n fuel (add_all es empty_manager) t e.name ≡ Result.found k
unfolding get_device_n
get_device_n-added es fuel k t e g u b s f =
    let h = add_all-IsFilled es in
    rw (lt→ltb t c_device_type_cnt b, devices-add_all es)
      (search_range-found es fuel k e ((add_all es empty_manager).dev_types_ranges t)
        (subst (λ ds. Fits ((add_all es empty_manager).dev_types_ranges t) (length ds))
          (devices-add_all es) (h.fits t))
        (h.spans t k e b (ap (λ ds. get_elem? ds k) (devices-add_all es) ∙ g) u) s f g)

first_of :
    {es : List Entry} {dev_name : Name} {first rest : Result}
    → Answers es dev_name first
    → Answers es dev_name rest
    → Answers es dev_name (elim first [
      | Result.found i ↦ Result.found i
      | Result.absent ↦ rest
      | Result.out_of_range ↦ Result.out_of_range
      | Result.out_of_fuel ↦ Result.out_of_fuel
    ])
first_of Answers.no_device a = a
first_of (Answers.device i e g n) a = Answers.device i e g n

search_types-Answers :
    (es : List Entry) (fuel : ℕ) (dev_name : Name) (left t : ℕ)
    → length es < 2 ^ fuel
    → Answers es dev_name (search_types fuel (add_all es empty_manager) dev_name left t)
unfolding search_types
search_types-Answers es fuel dev_name zero t f = Answers.no_device
search_types-Answers es fuel dev_name (suc left) t f =
    first_of (get_device_n-Answers es fuel t dev_name f)
      (search_types-Answers es fuel dev_name left (t + 1) f)

pub get_device_n_any-Answers :
    (es : List Entry) (fuel : ℕ) (dev_name : Name)
    → length es < 2 ^ fuel
    → Answers es dev_name (get_device_n_any fuel (add_all es empty_manager) dev_name)
unfolding get_device_n_any
get_device_n_any-Answers es fuel dev_name f =
    search_types-Answers es fuel dev_name c_device_type_cnt 0 f
