-- ===== src/State/Rounds.antt =====
-- The steps that are on over one round of operation_state::evaluate (PAC/common/operation_mngr.cpp).
use ptusa_main.Common.{
  ℕ, zero, suc, ◌+◌, ◌≡◌, refl, Bool, true, false, Option, none, some, length, get_elem?,
  if◌then◌else◌, arith,
}
use ptusa_main.Common.Int.{ℤ}
use ptusa_main.Plant.{Plant, Env}
use ptusa_main.Step
use ptusa_main.Step.{Step}
use ptusa_main.State.Defs.{State, step_at, with_steps, step_time, step_max_time, finalize}
use ptusa_main.State.Evaluate.{
  Request, evaluate_extra, evaluate_extras, enable_step, enable_steps, time_out, jump_at, jump_to,
  evaluate_active, follow_jump, evaluate_step, evaluate_main, evaluate,
}
use ptusa_main.State.Activity.{is_on-evaluate}
use ptusa_main.State.Tracked.{
  IsTracked, AllOff-IsTracked, to_step-IsTracked, on_extra-IsTracked, off_extra-IsTracked,
  finalize-IsQuiet,
}

-- A property of a result that holds on both branches of a test.
pub both {ℓ κ} :
    {A : Type ℓ} (P : A → Type κ) (b : Bool) {x y : A} → P x → P y → P (if b then x else y)
both P true p q = p
both P false p q = q

module _ ⦃plant : Plant⦄ where
  open plant use {World}

  abbrev evaluated_at : Env plant → ℕ → State → World → State × World
  evaluated_at env i st w = with_steps st (step_at (Step.evaluate env) st.steps i w)

  evaluated_at-IsTracked :
      (env : Env plant) (i : ℕ) (st : State) (w : World)
      → IsTracked st
      → IsTracked (evaluated_at env i st w).0
  evaluated_at-IsTracked env i st w t j h = ground (arith, t j, is_on-evaluate env st.steps i w j)

  evaluate_extra-IsTracked :
      (env : Env plant) (o : Option ℕ) (st : State) (w : World)
      → IsTracked st
      → IsTracked (evaluate_extra env o st w).0
  unfolding evaluate_extra
  evaluate_extra-IsTracked env none st w t = t
  evaluate_extra-IsTracked env (some zero) st w t = t
  evaluate_extra-IsTracked env (some (suc i)) st w t =
      let st' = evaluated_at env i st w in
      let t' = evaluated_at-IsTracked env i st w t in
      both (λ (r : State × World). IsTracked r.0) _
        (both (λ (r : State × World). IsTracked r.0) _ (off_extra-IsTracked i st'.0 st'.1 t') t') t

  evaluate_extras-IsTracked :
      (env : Env plant) (rounds idx : ℕ) (st : State) (w : World)
      → IsTracked st
      → IsTracked (evaluate_extras env rounds idx st w).0
  unfolding evaluate_extras
  evaluate_extras-IsTracked env zero idx st w t = t
  evaluate_extras-IsTracked env (suc rounds) idx st w t =
      let o = get_elem? st.active_steps idx in
      evaluate_extras-IsTracked env rounds (idx + 1) (evaluate_extra env o st w).0
        (evaluate_extra env o st w).1 (evaluate_extra-IsTracked env o st w t)

  enable_steps-IsTracked :
      (env : Env plant) (rounds i : ℕ) (st : State) (w : World)
      → IsTracked st
      → IsTracked (enable_steps env rounds i st w).0
  unfolding enable_steps enable_step
  enable_steps-IsTracked env zero i st w t = t
  enable_steps-IsTracked env (suc rounds) i st w t =
      enable_steps-IsTracked env rounds (i + 1) (enable_step env i st w).0
        (enable_step env i st w).1
        (both (λ (r : State × World). IsTracked r.0) _ (on_extra-IsTracked env i st w t) t)

  time_out-IsTracked :
      (env : Env plant) (st : State) (w : World) → IsTracked st → IsTracked (time_out env st w).0
  unfolding time_out
  time_out-IsTracked env st w t =
      both (λ (r : State × World × Request). IsTracked r.0) _
        (both (λ (r : State × World × Request). IsTracked r.0) _ t
          (AllOff-IsTracked (finalize env st w).0 (finalize-IsQuiet env st w t).all_off))
        (to_step-IsTracked env _ st w t)

  jump_to-IsTracked :
      (env : Env plant) (o : Option ℤ) (st : State) (w : World)
      → IsTracked st
      → IsTracked (jump_to env o st w).0
  unfolding jump_to
  jump_to-IsTracked env none st w t = t
  jump_to-IsTracked env (some next) st w t =
      both (λ (r : State × World). IsTracked r.0) _ t (to_step-IsTracked env _ st w t)

  evaluate_active-IsTracked :
      (env : Env plant) (o : Option ℕ) (st : State) (w : World)
      → st.active_step_n ≡ o
      → IsTracked st
      → IsTracked (evaluate_active env st w).0
  unfolding evaluate_active
  evaluate_active-IsTracked env none st w e t = rw (e, evaluate_active) t
  evaluate_active-IsTracked env (some i) st w e t =
      rw (e, evaluate_active) (evaluated_at-IsTracked env i st w t)

  follow_jump-IsTracked :
      (env : Env plant) (i : ℕ) (st : State) (w : World)
      → IsTracked st
      → IsTracked (follow_jump env i st w).0
  unfolding follow_jump
  follow_jump-IsTracked env i st w t =
      let moved = jump_to env (jump_at st.steps i w) st w in
      evaluate_active-IsTracked env moved.0.active_step_n moved.0 moved.1 refl
        (jump_to-IsTracked env (jump_at st.steps i w) st w t)

  evaluate_step-IsTracked :
      (env : Env plant) (i : ℕ) (st : State) (w : World)
      → IsTracked st
      → IsTracked (evaluate_step env i st w).0
  unfolding evaluate_step
  evaluate_step-IsTracked env i st w t =
      let st1 : State = record st { active_step_max_time = step_max_time env st i } in
      let st2 : State = record st1 { active_step_time = step_time env st i } in
      both (λ (r : State × World × Request). IsTracked r.0) _
        (both (λ (r : State × World × Request). IsTracked r.0) _ (time_out-IsTracked env st2 w t)
          (follow_jump-IsTracked env i st2 w t))
        (follow_jump-IsTracked env i st1 w t)

  evaluate_main-IsTracked :
      (env : Env plant) (o : Option ℕ) (st : State) (w : World)
      → st.active_step_n ≡ o
      → IsTracked st
      → IsTracked (evaluate_main env st w).0
  unfolding evaluate_main
  evaluate_main-IsTracked env none st w e t = rw (e, evaluate_main) t
  evaluate_main-IsTracked env (some i) st w e t =
      rw (e, evaluate_main) (evaluate_step-IsTracked env i st w t)

  -- One evaluation of a state, with its extra steps, its enabling signals, the time of the active
  -- step and the jump, leaves on only steps that are the active one or extra steps, where this held
  -- before.
  pub evaluate-IsTracked :
      (env : Env plant) (st : State) (w : World) → IsTracked st → IsTracked (evaluate env st w).0
  unfolding evaluate
  evaluate-IsTracked env st w t =
      let mode = Step.evaluate env st.mode_step w in
      let st1 : State = record st { mode_step = mode.0 } in
      let st2 = evaluate_extras env (length st1.active_steps) 0 st1 mode.1 in
      let st3 = enable_steps env (length st2.0.steps) 0 st2.0 st2.1 in
      evaluate_main-IsTracked env st3.0.active_step_n st3.0 st3.1 refl (
        enable_steps-IsTracked env (length st2.0.steps) 0 st2.0 st2.1
          (evaluate_extras-IsTracked env (length st1.active_steps) 0 st1 mode.1 t))
