-- ===== src/State/Activity.antt =====
-- Which steps of a state are switched on, and how the walks over the steps change that.
use ptusa_main.Common.{
  ℕ, zero, suc, ◌≡◌, refl, Bool, true, false, not, ◌&&◌, ◌||◌, List, [], ◌∷◌, ◌++◌, contains, erase,
  replace, ◌==◌, arith,
}
use ptusa_main.Plant.{Plant, Env}
use ptusa_main.Step
use ptusa_main.Step.{Step}
use ptusa_main.State.Defs.{step_at, modify, init_extra, finalize_extra}

unfoldable pub is_on : List Step → ℕ → Bool
is_on [] i = false
is_on (s ∷ steps) zero = s.active
is_on (s ∷ steps) (suc i) = is_on steps i

pub contains-append :
    (xs : List ℕ) (a b : ℕ) → contains (xs ++ a ∷ []) b ≡ (contains xs b || a == b)
unfolding contains
contains-append [] a b = ground arith
contains-append (x ∷ xs) a b = ground (arith, contains-append xs a b)

pub contains-erase :
    (xs : List ℕ) (a b : ℕ) → (a == b) ≡ false → contains (erase a xs) b ≡ contains xs b
unfolding contains erase
contains-erase [] a b h = refl
contains-erase (x ∷ xs) a b h = ground (arith, contains-erase xs a b h)

pub contains-replace :
    (xs : List ℕ) (a b c : ℕ)
    → (a == c) ≡ false
    → contains xs c ≡ true
    → contains (replace a b xs) c ≡ true
unfolding contains replace
contains-replace [] a b c h e = ground arith
contains-replace (x ∷ xs) a b c h e = ground (arith, contains-replace xs a b c h)

pub contains-replace_new :
    (xs : List ℕ) (a b : ℕ) → contains xs a ≡ true → contains (replace a b xs) b ≡ true
unfolding contains replace
contains-replace_new [] a b e = ground arith
contains-replace_new (x ∷ xs) a b e = ground (arith, contains-replace_new xs a b)

module _ ⦃plant : Plant⦄ where
  open plant use {World}

  pub is_on-evaluate :
      (env : Env plant) (steps : List Step) (i : ℕ) (w : World) (j : ℕ)
      → is_on (step_at (Step.evaluate env) steps i w).0 j ≡ is_on steps j
  unfolding is_on step_at Step.evaluate
  is_on-evaluate env [] i w j = refl
  is_on-evaluate env (s ∷ steps) zero w zero = refl
  is_on-evaluate env (s ∷ steps) zero w (suc j) = refl
  is_on-evaluate env (s ∷ steps) (suc i) w zero = refl
  is_on-evaluate env (s ∷ steps) (suc i) w (suc j) = is_on-evaluate env steps i w j

  pub is_on-finalize :
      (steps : List Step) (i : ℕ) (w : World) (j : ℕ)
      → is_on (step_at Step.finalize steps i w).0 j ≡ (not (i == j) && is_on steps j)
  unfolding is_on step_at Step.finalize
  is_on-finalize [] i w j = ground arith
  is_on-finalize (s ∷ steps) zero w zero = refl
  is_on-finalize (s ∷ steps) zero w (suc j) = ground arith
  is_on-finalize (s ∷ steps) (suc i) w zero = ground arith
  is_on-finalize (s ∷ steps) (suc i) w (suc j) = ground (arith, is_on-finalize steps i w j)

  pub is_on-init :
      (env : Env plant) (t : ℕ) (steps : List Step) (i j : ℕ)
      → is_on (modify (Step.init env t) steps i) j ≡ true
      → (i == j || is_on steps j) ≡ true
  unfolding is_on modify Step.init
  is_on-init env t [] i j h = ground arith
  is_on-init env t (s ∷ steps) zero zero h = ground arith
  is_on-init env t (s ∷ steps) zero (suc j) h = ground arith
  is_on-init env t (s ∷ steps) (suc i) zero h = ground arith
  is_on-init env t (s ∷ steps) (suc i) (suc j) h = ground (arith, is_on-init env t steps i j h)

  pub is_on-dx_time :
      (t : ℕ) (steps : List Step) (i j : ℕ)
      → is_on (modify (Step.set_dx_time t) steps i) j ≡ is_on steps j
  unfolding is_on modify Step.set_dx_time
  is_on-dx_time t [] i j = refl
  is_on-dx_time t (s ∷ steps) zero zero = refl
  is_on-dx_time t (s ∷ steps) zero (suc j) = refl
  is_on-dx_time t (s ∷ steps) (suc i) zero = refl
  is_on-dx_time t (s ∷ steps) (suc i) (suc j) = is_on-dx_time t steps i j

  pub is_on-init_extra :
      (env : Env plant) (t : ℕ) (extra : List ℕ) (steps : List Step) (j : ℕ)
      → is_on (init_extra env t extra steps) j ≡ true
      → (contains extra (suc j) || is_on steps j) ≡ true
  unfolding init_extra contains
  is_on-init_extra env t [] steps j h = ground arith
  is_on-init_extra env t (zero ∷ extra) steps j h =
      ground (arith, is_on-init_extra env t extra steps j h)
  is_on-init_extra env t (suc i ∷ extra) steps j h = ground (
    arith,
    is_on-init_extra env t extra (modify (Step.init env t) steps i) j h,
    is_on-init env t steps i j,
  )

  pub is_on-finalize_extra :
      (extra : List ℕ) (steps : List Step) (w : World) (j : ℕ)
      → is_on (finalize_extra extra steps w).0 j ≡ (not (contains extra (suc j)) && is_on steps j)
  unfolding finalize_extra contains
  is_on-finalize_extra [] steps w j = ground arith
  is_on-finalize_extra (zero ∷ extra) steps w j =
      ground (arith, is_on-finalize_extra extra steps w j)
  is_on-finalize_extra (suc i ∷ extra) steps w j = ground (
    arith,
    is_on-finalize_extra extra (step_at Step.finalize steps i w).0
        (step_at Step.finalize steps i w).1 j,
    is_on-finalize steps i w j,
  )
