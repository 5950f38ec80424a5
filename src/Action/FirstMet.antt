-- ===== src/Action/FirstMet.antt =====
-- jump_if_action::is_jump (PAC/common/operation_mngr.cpp) against a description: the first group
-- whose condition holds, and the target with its number or the last target.
use ptusa_main.Common.{
  ℕ, zero, suc, ◌+◌, ◌≡◌, refl, ap, sym, ◌∙◌, ◌≢◌, Option, none, some, List, [], ◌∷◌, get_or,
  Bool-cases, inl, inr, if◌then◌else◌, arith,
}
use native.Mathlib.Nat.{add-zero}
use native.Mathlib.Numerals.{add-one}
use mathlib.Core.Option
use ptusa_main.Common.Int.{ℤ, negsuc}
use ptusa_main.Plant.{Plant}
use ptusa_main.Action.Base.{Base, Groups}
use ptusa_main.Action.Jump.{group_is_met, next_at, jump_groups, is_jump}

-- The element at an index, or the last element where the list is too short.
abbrev pub get_or_last : List ℤ → ℕ → ℤ → ℤ
get_or_last [] i d = d
get_or_last (x ∷ xs) zero d = x
get_or_last (x ∷ xs) (suc i) d = get_or_last xs i x

get_or-last :
    (xs : List ℤ) (i : ℕ) (d : ℤ)
    → get_or xs (suc i) (get_or_last xs i d) ≡ get_or_last xs (suc i) d
get_or-last [] i d = refl
get_or-last (x ∷ []) zero d = refl
get_or-last (x ∷ []) (suc i) d = refl
get_or-last (x ∷ y ∷ xs) zero d = refl
get_or-last (x ∷ y ∷ xs) (suc i) d = get_or-last (y ∷ xs) i x

get_or-first : (xs : List ℤ) (d : ℤ) → get_or xs 0 d ≡ get_or_last xs 0 d
get_or-first [] d = refl
get_or-first (x ∷ xs) d = refl

module _ ⦃plant : Plant⦄ where
  open plant use {World}

  -- The position of the first group that is met.
  pub first_met : World → Groups → Option ℕ
  first_met w [] = none
  first_met w (group ∷ groups) =
      let rest = Option.map suc (first_met w groups) in
      if group_is_met w group then some 0 else rest

  abbrev pub target : List ℤ → ℕ → Option ℕ → Option ℤ
  target next_n idx none = none
  target next_n idx (some i) = some (get_or_last next_n (idx + i) (negsuc 0))

  target-suc :
      (next_n : List ℤ) (idx : ℕ) (o : Option ℕ)
      → target next_n (idx + 1) o ≡ target next_n idx (Option.map suc o)
  target-suc next_n idx none = refl
  target-suc next_n idx (some i) = ap (λ k. some (get_or_last next_n k (negsuc 0))) (omega arith)

  jump_groups-target :
      (w : World) (next_n : List ℤ) (groups : Groups) (idx : ℕ) (next : ℤ)
      → next_at next_n idx next ≡ get_or_last next_n idx (negsuc 0)
      → jump_groups w next_n idx next groups ≡ target next_n idx (first_met w groups)
  unfolding jump_groups first_met
  jump_groups-target w next_n [] idx next e = refl
  jump_groups-target w next_n (group ∷ groups) idx next e =
      let here = e ∙ ap (λ i. get_or_last next_n i (negsuc 0)) (sym (add-zero idx)) in
      let step : next_at next_n (idx + 1) (next_at next_n idx next)
          ≡ get_or_last next_n (idx + 1) (negsuc 0) =
        rw (add-one, e) (get_or-last next_n idx (negsuc 0)) in
      let later =
        jump_groups-target w next_n groups (idx + 1) (next_at next_n idx next) step
        ∙ target-suc next_n idx (first_met w groups) in
      elim (Bool-cases (group_is_met w group)) [
        | inl met ↦ rw met (ap some here)
        | inr unmet ↦ rw unmet later
      ]

  -- Where targets are set, a jump is made if and only if some group of conditions is met, to the
  -- target with the number of the first group that is met, or to the last target where there are
  -- fewer targets.
  pub is_jump-first_met :
      (w : World) (b : Base) (next_n : List ℤ)
      → next_n ≢ []
      → is_jump w b next_n ≡ target next_n 0 (first_met w b.devices)
  unfolding is_jump
  is_jump-first_met w b [] h = absurd (h refl)
  is_jump-first_met w b (n ∷ next_n) h =
      jump_groups-target w (n ∷ next_n) b.devices 0 (negsuc 0) refl
