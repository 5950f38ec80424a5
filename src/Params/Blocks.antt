-- ===== src/Params/Blocks.antt =====
-- The blocks that params_manager::get_params_data gives to arrays (PAC/common/param_ex.cpp).
use ptusa_main.Common.{
  ℕ, zero, suc, get_elem?, ◌==◌, ◌&&◌, ◌⊎◌, sym, ◌∙◌, ◌+◌, ◌*◌, ◌%◌, ◌^◌, ◌≤◌, ◌<◌, ◌≡◌, ap, inl,
  inr, true, false, List, [], ◌∷◌, Option, none, some, ltb, ==_iff, Bool-cases, if◌then◌else◌,
  arith,
}
use mathlib.Core.Path.{subst}
use mathlib.Core.Option.{some_inj}
use ptusa_main.Plant.{word}
use ptusa_main.Params.{Bytes, ParamsManager, value_size, c_total_params_size}
use ptusa_main.Params.Store.{init, get_params_data, new_params_manager}
use ptusa_main.Params.Saved.{
  is_index, get, save_value, SavedParams, new_saved_params, saved_params_of,
}
use ptusa_main.Params.Restart.{whole_range, params_mem-new, get-init-save_value, get-init-other}

-- Arrays of the given counts, made one after another; those that get no block are left out.
unfoldable pub keep_block :
    Option SavedParams → ParamsManager × List SavedParams → ParamsManager × List SavedParams
keep_block none (m, ps) = (m, ps)
keep_block (some p) (m, ps) = (m, p ∷ ps)

unfoldable pub allocate : List ℕ → ParamsManager → ParamsManager × List SavedParams
allocate [] m = (m, [])
allocate (count ∷ counts) m =
    let made = new_saved_params count m in keep_block made.1 (allocate counts made.0)

-- Blocks that follow each other, from the position `from` on, within the memory.
pub data InOrder : ℕ → List SavedParams → Type 0 where
  no_blocks : {from : ℕ} → InOrder from []
  block :
      {from : ℕ} {p : SavedParams} {ps : List SavedParams}
      → from ≤ p.start_pos
      → p.start_pos + p.count * value_size ≤ c_total_params_size
      → InOrder (p.start_pos + p.count * value_size) ps
      → InOrder from (p ∷ ps)

-- At most 2 ^ 28 values to an array.
pub data AllSmall : List ℕ → Type 0 where
  no_counts : AllSmall []
  small :
      {count : ℕ} {counts : List ℕ} → count ≤ 2 ^ 28 → AllSmall counts → AllSmall (count ∷ counts)

allocate-InOrder_from :
    (counts : List ℕ) (m : ParamsManager)
    → m.params_mem ≡ whole_range
    → m.last_idx ≤ c_total_params_size
    → AllSmall counts
    → InOrder m.last_idx (allocate counts m).1
unfolding allocate keep_block new_saved_params saved_params_of get_params_data
allocate-InOrder_from [] m e h a = InOrder.no_blocks
allocate-InOrder_from (count ∷ counts) m e h (AllSmall.small s a) =
    elim (Bool-cases (ltb m.params_mem.size ((m.last_idx + count * value_size) % word))) [
      | inl g ↦ rw g (allocate-InOrder_from counts m e h a)
      | inr g ↦
          (let whole : m.params_mem.size ≡ c_total_params_size = ap (λ r. r.size) e in
            let sum : (m.last_idx + count * value_size) % word ≡ m.last_idx + count * value_size =
              omega (arith, h, s) in
            let fits : m.last_idx + count * value_size ≤ c_total_params_size =
              ground (arith, g, whole, sum) in
            let rest =
              allocate-InOrder_from counts
                (record m { last_idx = (m.last_idx + count * value_size) % word }) e
                (omega (arith, sum, fits)) a in
            rw g (
              InOrder.block (omega arith) fits (
                subst
                  (λ n.
                    InOrder n
                      (allocate counts
                        (record m { last_idx = (m.last_idx + count * value_size) % word })).1)
                  sum rest)))
    ]

-- Arrays that are made of a new manager lie one after another within the memory.
pub allocate-InOrder :
    (e n : Bytes) (counts : List ℕ)
    → AllSmall counts
    → InOrder 0 (allocate counts (new_params_manager e n)).1
unfolding new_params_manager
allocate-InOrder e n counts a =
    allocate-InOrder_from counts (new_params_manager e n) (params_mem-new e n) (omega arith) a

-- Of two blocks the earlier one ends before the later one begins, and all lie in the memory.
later_start :
    (ps : List SavedParams) (from j : ℕ) (q : SavedParams)
    → InOrder from ps
    → get_elem? ps j ≡ some q
    → (from ≤ q.start_pos) × (q.start_pos + q.count * value_size ≤ c_total_params_size)
later_start [] from j q o h = ground arith
later_start (p ∷ ps) from zero q (InOrder.block b f o) h = ground (arith, h, b, f)
later_start (p ∷ ps) from (suc j) q (InOrder.block b f o) h =
    ground (arith, b, later_start ps (p.start_pos + p.count * value_size) j q o h)

ends_before :
    (ps : List SavedParams) (from i j : ℕ) (p q : SavedParams)
    → InOrder from ps
    → i < j
    → get_elem? ps i ≡ some p
    → get_elem? ps j ≡ some q
    → p.start_pos + p.count * value_size ≤ q.start_pos
ends_before [] from i j p q o l h g = ground arith
ends_before (r ∷ ps) from i zero p q o l h g = absurd (omega (arith, l))
ends_before (r ∷ ps) from zero (suc j) p q (InOrder.block b f o) l h g =
    ground (arith, h, later_start ps (r.start_pos + r.count * value_size) j q o g)
ends_before (r ∷ ps) from (suc i) (suc j) p q (InOrder.block b f o) l h g =
    ends_before ps (r.start_pos + r.count * value_size) i j p q o (omega (arith, l)) h g

blocks_apart :
    (ps : List SavedParams) (from i j : ℕ) (p q : SavedParams)
    → InOrder from ps
    → (i == j) ≡ false
    → get_elem? ps i ≡ some p
    → get_elem? ps j ≡ some q
    → (p.start_pos + p.count * value_size ≤ q.start_pos)
      ⊎ (q.start_pos + q.count * value_size ≤ p.start_pos)
blocks_apart ps from i j p q o d h g = elim (order i j d) [
  | inl l ↦ inl (ends_before ps from i j p q o l h g)
  | inr l ↦ inr (ends_before ps from j i q p o l g h)
]
  where
    order : (i j : ℕ) → (i == j) ≡ false → (i < j) ⊎ (j < i)
    order i j d = ground (arith, d)

-- Arrays of parameters get their blocks one after another from a new manager, each of at most 2 ^
-- 28 values. For any two of them, which may be the same, and a manager on the whole block, saving a
-- word of 32 bits at an index in range of the first and then starting the controller again gives
-- this word at that place, and at any other place in range of the second what starting again
-- without the save gives.
pub get-init-save_value_of :
    (e n : Bytes) (counts : List ℕ) (m : ParamsManager) (p q : SavedParams) (i j stub idx k v : ℕ)
    → AllSmall counts
    → m.params_mem ≡ whole_range
    → get_elem? (allocate counts (new_params_manager e n)).1 i ≡ some p
    → get_elem? (allocate counts (new_params_manager e n)).1 j ≡ some q
    → is_index p idx ≡ true
    → is_index q k ≡ true
    → v < word
    → get q stub k (init (save_value p idx v m))
      ≡ (if i == j && idx == k then v else get q stub k (init m))
get-init-save_value_of e n counts m p q i j stub idx k v a w h g b c l =
    let o = allocate-InOrder e n counts a in
    let ps = (allocate counts (new_params_manager e n)).1 in
    let pf = (later_start ps 0 i p o h).1 in
    let qf = (later_start ps 0 j q o g).1 in
    elim (Bool-cases (i == j)) [
      | inr d ↦
          rw d (get-init-other m p q stub idx k v w b pf qf (blocks_apart ps 0 i j p q o d h g))
      | inl s ↦
          (let same : p ≡ q = some_inj.0 (sym h ∙ ap (get_elem? ps) ((==_iff i j).0 s) ∙ g) in
            let at_p =
              get-init-save_value m p stub idx k v w b pf l (ap (λ r. is_index r k) same ∙ c) in
            rw s (
              subst
                (λ r.
                  get r stub k (init (save_value p idx v m))
                  ≡ (if idx == k then v else get r stub k (init m)))
                same at_p))
    ]
