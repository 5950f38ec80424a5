-- ===== src/State/Tracked.antt =====
-- The steps that are on against the active step and the extra steps, over the methods of
-- operation_state (PAC/common/operation_mngr.cpp).
use ptusa_main.Common.{
  ℕ, zero, suc, ◌≡◌, refl, Bool, true, false, not, ◌&&◌, ◌||◌, Option, none, some, [], ◌∷◌, ◌++◌,
  contains, ◌==◌, arith,
}
use ptusa_main.Plant.{Plant, Env}
use ptusa_main.Step
use ptusa_main.Step.{Step}
use ptusa_main.State.Defs.{
  State, modify, start_step, finalize_step, finalize_active, select_step, to_step, to_next_step,
  turn_off_active_step, init, finalize, get_active_step_set_time, stop_clock,
}
use ptusa_main.State.Extra.{is_main, on_extra, off_extra, switch_extra}
use ptusa_main.State.Activity.{
  is_on, is_on-evaluate, is_on-finalize, is_on-init, is_on-init_extra, is_on-finalize_extra,
  contains-append, contains-erase, contains-replace, contains-replace_new,
}

abbrev pub AllOff : State → Type 0
AllOff st = (i : ℕ) → is_on st.steps i ≡ false

abbrev pub is_tracked : State → ℕ → Bool
is_tracked st i = is_main st.active_step_n i || contains st.active_steps (suc i)

abbrev pub IsTracked : State → Type 0
IsTracked st = (i : ℕ) → is_on st.steps i ≡ true → is_tracked st i ≡ true

-- Finalized: nothing is on, and no step is active or extra.
pub record IsQuiet (st : State) : Type 0 where
  pub all_off : AllOff st
  pub mode_off : st.mode_step.active ≡ false
  pub no_active : st.active_step_n ≡ none
  pub no_extra : st.active_steps ≡ []

pub AllOff-IsTracked : (st : State) → AllOff st → IsTracked st
AllOff-IsTracked st off i h = ground (arith, off i)

module _ ⦃plant : Plant⦄ where
  open plant use {World}

  pub is_on-start_step :
      (env : Env plant) (i : ℕ) (st : State) (w : World) (j : ℕ)
      → is_on (start_step env i st w).0.steps j ≡ true
      → (i == j || is_on st.steps j) ≡ true
  unfolding start_step
  is_on-start_step env i st w j h = ground (
    arith,
    is_on-evaluate env (modify (Step.init env (get_active_step_set_time st)) st.steps i) i w j,
    is_on-init env (get_active_step_set_time st) st.steps i j,
  )

  pub is_on-finalize_active :
      (o : Option ℕ) (st : State) (w : World) (j : ℕ)
      → st.active_step_n ≡ o
      → is_on (finalize_active st w).0.steps j ≡ (not (is_main o j) && is_on st.steps j)
  unfolding finalize_active finalize_step
  is_on-finalize_active none st w j e = ground arith
  is_on-finalize_active (some a) st w j e = ground (arith, is_on-finalize st.steps a w j)

  -- finalize_active changes the steps only.
  pub finalize_active-extra :
      (o : Option ℕ) (st : State) (w : World)
      → st.active_step_n ≡ o
      → (finalize_active st w).0.active_steps ≡ st.active_steps
  unfolding finalize_active finalize_step
  finalize_active-extra none st w e = ground arith
  finalize_active-extra (some a) st w e = ground arith

  pub finalize_active-mode :
      (o : Option ℕ) (st : State) (w : World)
      → st.active_step_n ≡ o
      → (finalize_active st w).0.mode_step ≡ st.mode_step
  unfolding finalize_active finalize_step
  finalize_active-mode none st w e = ground arith
  finalize_active-mode (some a) st w e = ground arith

  pub start_step-extra :
      (env : Env plant) (i : ℕ) (st : State) (w : World)
      → (start_step env i st w).0.active_steps ≡ st.active_steps
  unfolding start_step
  start_step-extra env i st w = refl

  pub finalize_step-extra :
      (i : ℕ) (st : State) (w : World) → (finalize_step i st w).0.active_steps ≡ st.active_steps
  unfolding finalize_step
  finalize_step-extra i st w = refl

  pub is_on-finalize_step :
      (i : ℕ) (st : State) (w : World) (j : ℕ)
      → is_on (finalize_step i st w).0.steps j ≡ (not (i == j) && is_on st.steps j)
  unfolding finalize_step
  is_on-finalize_step i st w j = is_on-finalize st.steps i w j

  pub to_step-IsTracked :
      (env : Env plant) (n : ℕ) (st : State) (w : World)
      → IsTracked st
      → IsTracked (to_step env n st w).0
  unfolding to_step select_step
  to_step-IsTracked env zero st w t i h = t i h
  to_step-IsTracked env (suc k) st w t i h = ground (
    arith,
    t i,
    is_on-finalize_active st.active_step_n st w i refl,
    finalize_active-extra st.active_step_n st w refl,
    is_on-start_step env k (select_step env k (finalize_active st w).0) (finalize_active st w).1 i,
  )

  pub to_next_step-IsTracked :
      (env : Env plant) (o : Option ℕ) (st : State) (w : World)
      → st.active_step_n ≡ o
      → IsTracked st
      → IsTracked (to_next_step env st w).0
  unfolding to_next_step
  to_next_step-IsTracked env none st w e t = rw (e, to_next_step) t
  to_next_step-IsTracked env (some a) st w e t =
      rw (e, to_next_step) (to_step-IsTracked env _ st w t)

  pub turn_off_active_step-IsTracked :
      (st : State) (w : World) → IsTracked st → IsTracked (turn_off_active_step st w).0
  unfolding turn_off_active_step
  turn_off_active_step-IsTracked st w t i h = ground (
    arith,
    t i,
    is_on-finalize_active st.active_step_n st w i refl,
    finalize_active-extra st.active_step_n st w refl,
  )

  pub on_extra-IsTracked :
      (env : Env plant) (k : ℕ) (st : State) (w : World)
      → IsTracked st
      → IsTracked (on_extra env k st w).0
  unfolding on_extra
  on_extra-IsTracked env k st w t i h =
      let added : State = record st { active_steps = st.active_steps ++ suc k ∷ [] } in
      ground (
        arith,
        t i,
        is_on-start_step env k added w i,
        start_step-extra env k added w,
        contains-append st.active_steps (suc k) (suc i),
      )

  pub off_extra-IsTracked :
      (k : ℕ) (st : State) (w : World) → IsTracked st → IsTracked (off_extra k st w).0
  unfolding off_extra finalize_step
  off_extra-IsTracked k st w t i h =
      ground
        (arith, t i, is_on-finalize st.steps k w i, contains-erase st.active_steps (suc k) (suc i))

  pub switch_extra-IsTracked :
      (env : Env plant) (off on : ℕ) (st : State) (w : World)
      → IsTracked st
      → IsTracked (switch_extra env off on st w).0
  unfolding switch_extra
  switch_extra-IsTracked env off on st w t i h =
      let shut = finalize_step off st w in
      ground (
        arith,
        t i,
        is_on-finalize_step off st w i,
        finalize_step-extra off st w,
        is_on-start_step env on shut.0 shut.1 i,
        start_step-extra env on shut.0 shut.1,
        contains-replace st.active_steps (suc off) (suc on) (suc i),
        contains-replace_new st.active_steps (suc off) (suc on),
      )

  -- A start over: the state must be off, or what is on is forgotten.
  pub init-IsTracked :
      (env : Env plant) (start : ℕ) (st : State) (w : World)
      → AllOff st
      → IsTracked (init env start st w).0
  unfolding init
  init-IsTracked env start st w off i h =
      let begun : State = record st {
        mode_step = Step.init env (get_active_step_set_time st) st.mode_step;
        start_time = env.now;
        active_step_n = none;
      } in
      let moved = (to_step env start begun w).0 in
      ground (
        arith,
        off i,
        to_step-IsTracked env start begun w (AllOff-IsTracked begun off) i,
        is_on-init_extra env (get_active_step_set_time moved) moved.active_steps moved.steps i,
      )

  stop_clock_fields :
      (env : Env plant) (st : State) (w : World)
      → ((stop_clock env st w).0.steps ≡ st.steps)
        × ((stop_clock env st w).0.active_step_n ≡ st.active_step_n)
        × ((stop_clock env st w).0.active_steps ≡ st.active_steps)
        × ((stop_clock env st w).0.mode_step.active ≡ false)
  unfolding stop_clock Step.finalize
  stop_clock_fields env st w = (refl, refl, refl, refl)

  finalize_off :
      (env : Env plant) (st : State) (w : World) → IsTracked st → AllOff (finalize env st w).0
  unfolding finalize
  finalize_off env st w t i =
      let stopped = stop_clock env st w in
      let shut = finalize_active stopped.0 stopped.1 in
      ground (
        arith,
        t i,
        stop_clock_fields env st w,
        is_on-finalize_active st.active_step_n stopped.0 stopped.1 i,
        finalize_active-extra st.active_step_n stopped.0 stopped.1,
        is_on-finalize_extra shut.0.active_steps shut.0.steps shut.1 i,
      )

  -- Finalizing a state in which every step that is on is the active step or an extra step turns all
  -- steps and the step of the whole state off, and leaves no active and no extra steps.
  pub finalize-IsQuiet :
      (env : Env plant) (st : State) (w : World) → IsTracked st → IsQuiet (finalize env st w).0
  unfolding finalize
  finalize-IsQuiet env st w t = record {
    all_off = finalize_off env st w t;
    mode_off =
        let stopped = stop_clock env st w in
        ground (
          arith,
          stop_clock_fields env st w,
          finalize_active-mode st.active_step_n stopped.0 stopped.1,
        );
    no_active = refl;
    no_extra = refl;
  }
