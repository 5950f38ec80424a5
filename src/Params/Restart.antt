-- ===== src/Params/Restart.antt =====
-- What a parameter holds after it is saved and the controller starts again
-- (PAC/common/param_ex.h, param_ex.cpp).
use ptusa_main.Common.{
  ℕ, ◌+◌, ◌-◌, ◌*◌, ◌≤◌, ◌<◌, ◌≡◌, refl, ap, ◌∙◌, ◌⊎◌, inl, inr, true, false, ◌&&◌, ltb, leb, ◌==◌,
  Bool-cases, if◌then◌else◌, arith,
}
use ptusa_main.Plant.{word}
use ptusa_main.Params.{Bytes, MemoryRange, ParamsManager, value_size, c_total_params_size}
use ptusa_main.Params.Memory.{
  get_memory_block, new_memory_manager, copy_bytes, is_in_range, read_range, write_range, to_bytes,
  of_bytes,
}
use ptusa_main.Params.Store.{init, save, no_bytes, new_params_manager}
use ptusa_main.Params.Saved.{SavedParams, value_at, set_value_at, is_index, get, save_value}

of_bytes-to_bytes : (v : ℕ) → v < word → of_bytes (to_bytes v) ≡ v
unfolding of_bytes to_bytes
of_bytes-to_bytes v h = omega (arith, h)

-- The block of parameters that the constructor takes.
abbrev pub whole_range : MemoryRange
whole_range = record { has_memory = true; start_pos = 32; size = c_total_params_size }

pub params_mem-new : (e n : Bytes) → (new_params_manager e n).params_mem ≡ whole_range
unfolding new_params_manager get_memory_block new_memory_manager
params_mem-new e n = refl

read_whole :
    (memory buffer : Bytes) (k : ℕ)
    → k < c_total_params_size
    → read_range whole_range memory c_total_params_size 0 buffer k ≡ memory (32 + k)
unfolding read_range copy_bytes is_in_range
read_whole memory buffer k h =
    let e : memory (32 + 0 + (k - 0)) ≡ memory (32 + k) = ap memory (omega arith) in
    ground (arith, e)

write_whole :
    (buffer memory : Bytes) (count start k : ℕ)
    → start + count ≤ c_total_params_size
    → write_range whole_range buffer count start memory (32 + k)
      ≡ (if leb start k && ltb k (start + count) then buffer (k - start) else memory (32 + k))
unfolding write_range copy_bytes is_in_range
write_whole buffer memory count start k h =
    let e : buffer (32 + k - (32 + start)) ≡ buffer (k - start) = ap buffer (omega arith) in
    ground (arith, e)

-- The array after a restart, at a place within it.
init-eeprom :
    (m : ParamsManager) (k : ℕ)
    → m.params_mem ≡ whole_range
    → k < c_total_params_size
    → (init m).params k ≡ m.eeprom (32 + k)
unfolding init
init-eeprom m k e h =
    ap (λ r. read_range r m.eeprom c_total_params_size 0 no_bytes k) e
    ∙ read_whole m.eeprom no_bytes k h

-- What a save writes, at a place of the array.
save-eeprom :
    (m : ParamsManager) (start count k : ℕ)
    → m.params_mem ≡ whole_range
    → 0 < count
    → start + count ≤ c_total_params_size
    → (save start count m).eeprom (32 + k)
      ≡ (if leb start k && ltb k (start + count) then m.params k else m.eeprom (32 + k))
unfolding save
save-eeprom m start count k e o h =
    let size : (if count == 0 then c_total_params_size else count) ≡ count = ground arith in
    let same : start ≤ k → m.params (start + (k - start)) ≡ m.params k =
      λ b. ap m.params (omega (arith, b)) in
    let buffer = (λ (j : ℕ). m.params (start + j)) in
    ap (λ c. write_range m.params_mem buffer c start m.eeprom (32 + k)) size
    ∙ ap (λ r. write_range r buffer count start m.eeprom (32 + k)) e
    ∙ write_whole buffer m.eeprom count start k h
    ∙ ground (arith, same)

of_bytes-ext : (a b : Bytes) → ((k : ℕ) → k < value_size → a k ≡ b k) → of_bytes a ≡ of_bytes b
unfolding of_bytes
of_bytes-ext a b h =
    omega (arith, h 0 (omega arith), h 1 (omega arith), h 2 (omega arith), h 3 (omega arith))

copy_inside :
    (start count k : ℕ) (source memory : Bytes)
    → k < count
    → copy_bytes start count source memory (start + k) ≡ source k
unfolding copy_bytes
copy_inside start count k source memory h =
    let e : source (start + k - start) ≡ source k = ap source (omega arith) in ground (arith, e)

copy_outside :
    (start count k : ℕ) (source memory : Bytes)
    → (k < start) ⊎ (start + count ≤ k)
    → copy_bytes start count source memory k ≡ memory k
unfolding copy_bytes
copy_outside start count k source memory h = ground (arith, h)

-- A value of the array, after one of it is set.
value_at-set_value_at :
    (p : SavedParams) (i j v : ℕ) (params : Bytes)
    → v < word
    → value_at p j (set_value_at p i v params) ≡ (if i == j then v else value_at p j params)
unfolding value_at set_value_at
value_at-set_value_at p i j v params h = elim (Bool-cases (i == j)) [
  | inl e ↦ rw e (
      of_bytes-ext _ (to_bytes v) (λ k b.
        ap (λ x. copy_bytes (p.start_pos + i * value_size) value_size (to_bytes v) params x)
          (ground (arith, e))
        ∙ copy_inside (p.start_pos + i * value_size) value_size k (to_bytes v) params b)
      ∙ of_bytes-to_bytes v h)
  | inr e ↦ rw e (
      of_bytes-ext _ _ (λ k b.
        copy_outside (p.start_pos + i * value_size) value_size (p.start_pos + j * value_size + k)
          (to_bytes v) params (apart i j k b e)))
]
  where
    apart :
        (i j k : ℕ)
        → k < value_size
        → (i == j) ≡ false
        → (p.start_pos + j * value_size + k < p.start_pos + i * value_size)
          ⊎ (p.start_pos + i * value_size + value_size ≤ p.start_pos + j * value_size + k)
    apart i j k b e = ground (arith, b, e)

index_positive : (p : SavedParams) (idx : ℕ) → is_index p idx ≡ true → 0 < idx
unfolding is_index
index_positive p idx i = ground (arith, i)

index_fits :
    (p : SavedParams) (idx : ℕ)
    → is_index p idx ≡ true
    → p.start_pos + p.count * value_size ≤ c_total_params_size
    → p.start_pos + (idx - 1) * value_size + value_size ≤ c_total_params_size
unfolding is_index
index_fits p idx i f = ground (arith, i, f)

byte_fits :
    (p : SavedParams) (j k : ℕ)
    → is_index p j ≡ true
    → p.start_pos + p.count * value_size ≤ c_total_params_size
    → k < value_size
    → p.start_pos + (j - 1) * value_size + k < c_total_params_size
unfolding is_index
byte_fits p j k i f h = ground (arith, i, f, h)

-- A byte of another array, when a value of the array is set.
set_value_at-apart :
    (p q : SavedParams) (idx j k v : ℕ) (params : Bytes)
    → is_index p idx ≡ true
    → is_index q j ≡ true
    → (p.start_pos + p.count * value_size ≤ q.start_pos)
      ⊎ (q.start_pos + q.count * value_size ≤ p.start_pos)
    → k < value_size
    → set_value_at p (idx - 1) v params (q.start_pos + (j - 1) * value_size + k)
      ≡ params (q.start_pos + (j - 1) * value_size + k)
unfolding set_value_at is_index
set_value_at-apart p q idx j k v params i b a h =
    copy_outside (p.start_pos + (idx - 1) * value_size) value_size
      (q.start_pos + (j - 1) * value_size + k) (to_bytes v) params (ground (arith, i, b, a, h))

-- The array of the manager after a value is saved and the controller starts again.
init-save_value :
    (m : ParamsManager) (p : SavedParams) (idx v k : ℕ)
    → m.params_mem ≡ whole_range
    → is_index p idx ≡ true
    → p.start_pos + p.count * value_size ≤ c_total_params_size
    → k < c_total_params_size
    → (init (save_value p idx v m)).params k ≡ set_value_at p (idx - 1) v (init m).params k
unfolding save_value set_value_at save copy_bytes
init-save_value m p idx v k e i f h =
    let start = p.start_pos + (idx - 1) * value_size in
    let n = record m { params = set_value_at p (idx - 1) v m.params } in
    ap (λ c. (init (if c then save start value_size n else m)).params k) i
    ∙ init-eeprom (save start value_size n) k e h
    ∙ save-eeprom n start value_size k e (omega arith) (index_fits p idx i f)
    ∙ ground (arith, init-eeprom m k e h)

-- A value that is saved and those beside it, after a restart.
pub get-init-save_value :
    (m : ParamsManager) (p : SavedParams) (stub idx j v : ℕ)
    → m.params_mem ≡ whole_range
    → is_index p idx ≡ true
    → p.start_pos + p.count * value_size ≤ c_total_params_size
    → v < word
    → is_index p j ≡ true
    → get p stub j (init (save_value p idx v m)) ≡ (if idx == j then v else get p stub j (init m))
unfolding get value_at
get-init-save_value m p stub idx j v e i f h b = rw b (
    of_bytes-ext _ _ (λ k c.
      init-save_value m p idx v (p.start_pos + (j - 1) * value_size + k) e i f
        (byte_fits p j k b f c))
    ∙ value_at-set_value_at p (idx - 1) (j - 1) v (init m).params h
    ∙ ground (arith, index_positive p idx i, index_positive p j b))

-- The values of another array, after a restart.
pub get-init-other :
    (m : ParamsManager) (p q : SavedParams) (stub idx j v : ℕ)
    → m.params_mem ≡ whole_range
    → is_index p idx ≡ true
    → p.start_pos + p.count * value_size ≤ c_total_params_size
    → q.start_pos + q.count * value_size ≤ c_total_params_size
    → (p.start_pos + p.count * value_size ≤ q.start_pos)
      ⊎ (q.start_pos + q.count * value_size ≤ p.start_pos)
    → get q stub j (init (save_value p idx v m)) ≡ get q stub j (init m)
unfolding get value_at
get-init-other m p q stub idx j v e i f g a = elim (Bool-cases (is_index q j)) [
  | inr n ↦ rw n refl
  | inl b ↦ rw b (
      of_bytes-ext _ _ (λ k c.
        init-save_value m p idx v (q.start_pos + (j - 1) * value_size + k) e i f
          (byte_fits q j k b g c)
        ∙ set_value_at-apart p q idx j k v (init m).params i b a c))
]
