-- ===== src/Operation/Resume.antt =====
-- A pause and the return from it: `pause` and `to_run_state` of class operation with `save`, `load`
-- and `add_dx_step_time` of operation_state (PAC/common/operation_mngr.cpp).
use ptusa_main.Common.{ℕ, suc, ◌≡◌, refl, ◌<◌, true, some, length, sym, ap, ◌∙◌, arith}
use mathlib.Core.Path.{subst}
use ptusa_main.Common.Int.{ℤ, pos, negsuc}
use ptusa_main.Plant.{Plant, Env}
use ptusa_main.State.Defs
use ptusa_main.State.Defs.{
  State, step_at, modify, start_step, finalize_step, finalize_active, select_step, is_started,
  to_step, init_extra, finalize_extra, stop_clock, add_dx_step_time, active_step,
  active_step_evaluation_time, save, load, get_active_step_set_time,
}
use ptusa_main.State.Evaluate.{keep_on}
use ptusa_main.Operation.Mode.{run, pause, pausing, unpausing}
use ptusa_main.Operation.Defs.{
  Operation, resume_state, on_state, leave_run, leave, enter, enter_and_evaluate, evaluate_current,
  pause_in, pause_operation, resume, start_in, start_operation, to_run_state,
}
use ptusa_main.Operation.Paused.{Kept, save-Kept, Resumed, resume_state-Resumed}

module _ ⦃plant : Plant⦄ where
  open plant use {World}

  active_step-some : (st : State) (i : ℕ) → st.active_step_n ≡ some i → active_step st ≡ suc i
  unfolding active_step
  active_step-some st i e = rw (e, active_step)

  paused_fields :
      (env : Env plant) (op : Operation) (w : World)
      → op.current_state ≡ run
      → Defs.is_empty (op.states pausing) ≡ true
      → ((pause_operation env op w).0.states run ≡ (Defs.finalize env (save (op.states run)) w).0)
        × ((pause_operation env op w).0.states unpausing ≡ op.states unpausing)
        × ((pause_operation env op w).0.current_state ≡ pause)
        × ((pause_operation env op w).0.run_step ≡ pos (active_step (op.states run)))
  unfolding pause_operation pause_in leave_run enter_and_evaluate enter evaluate_current on_state
  paused_fields env op w c p = (ground arith, ground arith, ground arith, ground arith)

  left_pause :
      (env : Env plant) (op : Operation) (w : World)
      → ((leave env pause op w).0.states run ≡ op.states run)
        × ((leave env pause op w).0.states unpausing ≡ op.states unpausing)
        × ((leave env pause op w).0.run_step ≡ op.run_step)
  unfolding leave on_state
  left_pause env op w = (refl, refl, refl)

  start_in-pause :
      (env : Env plant) (step : ℤ) (op : Operation) (w : World)
      → Defs.is_empty ((leave env pause op w).0.states unpausing) ≡ true
      → let left = leave env pause op w in
        start_in env step pause op w ≡ to_run_state env step left.0 left.1
  unfolding start_in
  start_in-pause env step op w u = rw u

  start_paused :
      (env : Env plant) (step : ℤ) (op : Operation) (w : World)
      → op.current_state ≡ pause
      → Defs.is_empty ((leave env pause op w).0.states unpausing) ≡ true
      → let left = leave env pause op w in
        let back = resume env step left.0 left.1 in
        start_operation env step op w ≡ evaluate_current env back.0 back.1
  unfolding start_operation to_run_state
  start_paused env step op w c u =
      ap (λ m. start_in env step m op w) c ∙ start_in-pause env step op w u

  resume-run :
      (env : Env plant) (step : ℤ) (op : Operation) (w : World)
      → ((resume env step op w).0.states run
          ≡ (resume_state env step op.run_step (op.states run) w).0)
        × ((resume env step op w).0.current_state ≡ run)
  unfolding resume on_state
  resume-run env step op w = (refl, refl)

  -- Where an operation is in step i of RUN, that step exists, the states PAUSING and UNPAUSING are
  -- empty, and the evaluation that ends the pause does not ask the owner to turn the operation off,
  -- the pause and then a start with no step given, at whatever later state of the devices and
  -- parameters, is the evaluation, with the request that it may end with, of an operation in RUN
  -- that is in step i again, with the extra steps it had and with the time that step i had worked
  -- carried over.
  pub pause-start :
      (env env' : Env plant) (i : ℕ) (op : Operation) (w w' : World)
      → op.current_state ≡ run
      → Defs.is_empty (op.states pausing) ≡ true
      → Defs.is_empty (op.states unpausing) ≡ true
      → (op.states run).active_step_n ≡ some i
      → i < length (op.states run).steps
      → (pause_operation env op w).2 ≡ keep_on
      → let paused = (pause_operation env op w).0 in
        (back : Operation) × (v : World) × (start_operation env' (negsuc 0) paused w'
          ≡ evaluate_current env' back v)
        × (back.current_state ≡ run)
        × Resumed env (op.states run) i (back.states run)
  pause-start env env' i op w w' c p u a h _ =
      let st = op.states run in
      let paused = (pause_operation env op w).0 in
      let (states_run, states_unpausing, at_pause, step) = paused_fields env op w c p in
      let left = leave env' pause paused w' in
      let (left_run, left_unpausing, left_step) = left_pause env' paused w' in
      let back = resume env' (negsuc 0) left.0 left.1 in
      let kept : Kept env st (left.0.states run) =
        rw (left_run, states_run) (save-Kept env i st w a) in
      let at_step : left.0.run_step ≡ pos (suc i) =
        left_step ∙ step ∙ ap pos (active_step-some st i a) in
      let run_state =
        (resume-run env' (negsuc 0) left.0 left.1).0
        ∙ ap (λ r. (resume_state env' (negsuc 0) r (left.0.states run) left.1).0) at_step in
      (
        back.0,
        back.1,
        start_paused env' (negsuc 0) paused w' at_pause (rw (left_unpausing, states_unpausing) u),
        (resume-run env' (negsuc 0) left.0 left.1).1,
        subst (Resumed env st i) (sym run_state)
            (resume_state-Resumed env env' i st (left.0.states run) left.1 kept h),
      )
