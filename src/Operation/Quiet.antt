-- ===== src/Operation/Quiet.antt =====
-- What the commands of an operation (PAC/common/operation_mngr.cpp) leave behind in the states that
-- it is not in.
use ptusa_main.Common.{◌≡◌, refl, ◌∙◌, List, [], ◌∷◌, arith}
use mathlib.Core.Path.{subst}
use ptusa_main.Common.Int.{ℤ}
use ptusa_main.Plant.{Plant, Env}
use ptusa_main.State.Defs
use ptusa_main.State.Defs.{State}
use ptusa_main.State.Tracked.{AllOff-IsTracked}
use ptusa_main.State.Rounds.{both}
use ptusa_main.State.Evaluate.{Request}
use ptusa_main.Operation.Mode.{Mode, idle, run, pause, stop, starting, pausing, unpausing, stopping}
use ptusa_main.Operation.Defs.{
  Operation, on_state, leave, enter, evaluate_current, by_way_of, leave_run, pause_in,
  pause_operation, stop_from, stop_in, stop_operation, switch_off_in, switch_off, resume,
  to_run_state, start_in, start_operation, finalize_in, finalize,
}
use ptusa_main.Operation.Machine.{
  Command, do_pause, do_stop, do_switch_off, do_finalize, do_start, execute, execute_all,
}
use ptusa_main.Operation.Clean.{
  AllQuiet, IsClean, timed-IsClean, reset-IsQuiet, leave-AllQuiet, enter-IsClean,
  enter_and_evaluate-IsClean, to_run_state-IsClean, leave_run-AllQuiet,
}

module _ ⦃plant : Plant⦄ where
  open plant use {World}

  pause_in-IsClean :
      (env : Env plant) (m : Mode) (op : Operation) (w : World)
      → op.current_state ≡ m
      → IsClean op
      → IsClean (pause_in env m op w).0
  unfolding pause_in
  pause_in-IsClean env run op w e h =
      let left = leave_run env op w in
      enter_and_evaluate-IsClean env (by_way_of left.0 pausing pause) left.0 left.1
        (leave_run-AllQuiet env op w e h)
  pause_in-IsClean env pausing op w e h =
      enter-IsClean env pause (leave env pausing op w).0 (leave env pausing op w).1
        (subst (λ m. AllQuiet (leave env m op w).0.states) e (leave-AllQuiet env op w h))
  pause_in-IsClean env _ op w e h = h

  stop_from-IsClean :
      (env : Env plant) (op : Operation) (w : World) → IsClean op → IsClean (stop_from env op w).0
  unfolding stop_from
  stop_from-IsClean env op w h =
      let left = leave env op.current_state op w in
      enter_and_evaluate-IsClean env (by_way_of left.0 stopping stop) left.0 left.1
        (leave-AllQuiet env op w h)

  stop_in-IsClean :
      (env : Env plant) (m : Mode) (op : Operation) (w : World)
      → IsClean op
      → IsClean (stop_in env m op w).0
  unfolding stop_in
  stop_in-IsClean env pausing op w h = stop_from-IsClean env op w h
  stop_in-IsClean env pause op w h = stop_from-IsClean env op w h
  stop_in-IsClean env unpausing op w h = stop_from-IsClean env op w h
  stop_in-IsClean env starting op w h = stop_from-IsClean env op w h
  stop_in-IsClean env run op w h = stop_from-IsClean env op w h
  stop_in-IsClean env stopping op w h =
      enter_and_evaluate-IsClean env stop (leave env op.current_state op w).0
        (leave env op.current_state op w).1 (leave-AllQuiet env op w h)
  stop_in-IsClean env _ op w h = h

  switch_off_in-IsClean :
      (env : Env plant) (m : Mode) (op : Operation) (w : World)
      → IsClean op
      → IsClean (switch_off_in env m op w).0
  unfolding switch_off_in
  switch_off_in-IsClean env idle op w h = h
  switch_off_in-IsClean env _ op w h =
      enter_and_evaluate-IsClean env idle (leave env op.current_state op w).0
        (leave env op.current_state op w).1 (leave-AllQuiet env op w h)

  finalize_in-IsClean :
      (env : Env plant) (m : Mode) (op : Operation) (w : World)
      → IsClean op
      → IsClean (finalize_in env m op w).0
  unfolding finalize_in Defs.reset_eval_time
  finalize_in-IsClean env idle op w h = h
  finalize_in-IsClean env _ op w h =
      let quiet = leave-AllQuiet env op w h in
      record {
        others =
            λ k _ nu. reset-IsQuiet ((leave env op.current_state op w).0.states k) (quiet k nu);
        current = λ nu.
            AllOff-IsTracked
              (Defs.reset_eval_time ((leave env op.current_state op w).0.states idle))
              (quiet idle nu).all_off;
      }

  left_as :
      (env : Env plant) (m : Mode) (op : Operation) (w : World)
      → op.current_state ≡ m
      → IsClean op
      → AllQuiet (leave env m op w).0.states
  left_as env m op w e h =
      subst (λ k. AllQuiet (leave env k op w).0.states) e (leave-AllQuiet env op w h)

  start_in-IsClean :
      (env : Env plant) (step : ℤ) (m : Mode) (op : Operation) (w : World)
      → op.current_state ≡ m
      → IsClean op
      → IsClean (start_in env step m op w).0
  unfolding start_in
  start_in-IsClean env step idle op w e h =
      let left = leave env idle op w in
      timed-IsClean (enter env (by_way_of left.0 starting run) left.0 left.1).0 0 (
        enter-IsClean env (by_way_of left.0 starting run) left.0 left.1 (left_as env idle op w e h))
  start_in-IsClean env step pause op w e h =
      let left = leave env pause op w in
      let quiet = left_as env pause op w e h in
      both (λ (r : Operation × World × Request). IsClean r.0) _
        (to_run_state-IsClean env step left.0 left.1 quiet)
        (enter_and_evaluate-IsClean env unpausing left.0 left.1 quiet)
  start_in-IsClean env step starting op w e h =
      let left = leave env starting op w in
      timed-IsClean (enter env run left.0 left.1).0 0
        (enter-IsClean env run left.0 left.1 (left_as env starting op w e h))
  start_in-IsClean env step unpausing op w e h =
      to_run_state-IsClean env step op w (λ k nu. h.others k (λ p. nu (p ∙ e)) nu)
  start_in-IsClean env step _ op w e h = h

  -- Every command keeps the operation clean.
  pub execute-IsClean :
      (env : Env plant) (c : Command) (op : Operation) (w : World)
      → IsClean op
      → IsClean (execute env c op w).0
  unfolding execute pause_operation stop_operation switch_off finalize start_operation
  execute-IsClean env do_pause op w h = pause_in-IsClean env op.current_state op w refl h
  execute-IsClean env do_stop op w h = stop_in-IsClean env op.current_state op w h
  execute-IsClean env do_switch_off op w h = switch_off_in-IsClean env op.current_state op w h
  execute-IsClean env do_finalize op w h = finalize_in-IsClean env op.current_state op w h
  execute-IsClean env (do_start step) op w h =
      start_in-IsClean env step op.current_state op w refl h

  -- Any sequence of the commands pause, stop, switch_off, finalize and start, each at a time and
  -- with parameters of its own, keeps an operation clean: all states but the current one and
  -- UNPAUSING are finalized, and in the current one, unless it is UNPAUSING, every step that is on
  -- is the active step or an extra step.
  pub execute_all-IsClean :
      (cs : List (Env plant × Command)) (op : Operation) (w : World)
      → IsClean op
      → IsClean (execute_all cs op w).0
  unfolding execute_all
  execute_all-IsClean [] op w h = h
  execute_all-IsClean ((env, c) ∷ cs) op w h =
      execute_all-IsClean cs (execute env c op w).0 (execute env c op w).1
        (execute-IsClean env c op w h)

  -- A start in the state UNPAUSING leads to RUN and leaves the state UNPAUSING as it is, not
  -- finalized.
  pub start-unpausing :
      (env : Env plant) (step : ℤ) (op : Operation) (w : World)
      → op.current_state ≡ unpausing
      → ((start_operation env step op w).0.states unpausing ≡ op.states unpausing)
        × ((start_operation env step op w).0.current_state ≡ run)
  unfolding start_operation start_in to_run_state resume evaluate_current on_state
  start-unpausing env step op w e = ground arith
