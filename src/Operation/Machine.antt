-- ===== src/Operation/Machine.antt =====
-- The diagram of the states of an operation, described apart from the code, and the commands of
-- PAC/common/operation_mngr.cpp.
use ptusa_main.Common.{◌≡◌, refl, ◌≢◌, Bool, List, [], ◌∷◌, if◌then◌else◌, arith}
use ptusa_main.Common.Int.{ℤ}
use ptusa_main.Plant.{Plant, Env}
use ptusa_main.State.Defs
use ptusa_main.State.Evaluate.{Request, keep_on}
use ptusa_main.Operation.Mode.{
  Mode, idle, run, pause, stop, starting, pausing, unpausing, stopping, completing,
}
use ptusa_main.Operation.Defs.{
  Operation, on_state, leave, enter, evaluate_current, enter_and_evaluate, leave_run, pause_in,
  pause_operation, stop_from, stop_in, stop_operation, switch_off_in, switch_off, resume,
  to_run_state, start_in, start_operation, finalize_in, finalize,
}

pub data Command : Type 0 where
  do_pause do_stop do_switch_off do_finalize : Command
  do_start : ℤ → Command

-- Where a command leads from a state, its request to turn the operation off aside, by which of the states on the way have no content.
abbrev pub next_mode : (Mode → Bool) → Command → Mode → Mode
next_mode empty do_pause run = if empty pausing then pause else pausing
next_mode empty do_pause pausing = pause
next_mode empty do_stop run = if empty stopping then stop else stopping
next_mode empty do_stop pause = if empty stopping then stop else stopping
next_mode empty do_stop starting = if empty stopping then stop else stopping
next_mode empty do_stop pausing = if empty stopping then stop else stopping
next_mode empty do_stop unpausing = if empty stopping then stop else stopping
next_mode empty do_stop stopping = stop
next_mode empty (do_start _) idle = if empty starting then run else starting
next_mode empty (do_start _) starting = run
next_mode empty (do_start _) pause = if empty unpausing then run else unpausing
next_mode empty (do_start _) unpausing = run
next_mode empty do_switch_off _ = idle
next_mode empty do_finalize _ = idle
next_mode empty _ m = m

module _ ⦃plant : Plant⦄ where
  open plant use {World}

  -- A command as one of the methods.
  unfoldable pub execute : Env plant → Command → Operation → World → Operation × World × Request
  execute env do_pause op w = pause_operation env op w
  execute env do_stop op w = stop_operation env op w
  execute env do_switch_off op w = switch_off env op w
  execute env do_finalize op w = let (op', w') = finalize env op w in (op', w', keep_on)
  execute env (do_start step) op w = start_operation env step op w

  pause_in-mode :
      (env : Env plant) (m : Mode) (op : Operation) (w : World)
      → op.current_state ≡ m
      → (pause_in env m op w).0.current_state
        ≡ next_mode (λ k. Defs.is_empty (op.states k)) do_pause m
  unfolding pause_in leave_run on_state leave enter enter_and_evaluate evaluate_current
  pause_in-mode env idle op w e = ground arith
  pause_in-mode env _ op w e = ground arith

  stop_in-mode :
      (env : Env plant) (m : Mode) (op : Operation) (w : World)
      → op.current_state ≡ m
      → (stop_in env m op w).0.current_state
        ≡ next_mode (λ k. Defs.is_empty (op.states k)) do_stop m
  unfolding stop_in stop_from on_state leave enter enter_and_evaluate evaluate_current
  stop_in-mode env idle op w e = ground arith
  stop_in-mode env _ op w e = ground arith

  switch_off_in-mode :
      (env : Env plant) (m : Mode) (op : Operation) (w : World)
      → op.current_state ≡ m
      → (switch_off_in env m op w).0.current_state
        ≡ next_mode (λ k. Defs.is_empty (op.states k)) do_switch_off m
  unfolding switch_off_in on_state leave enter enter_and_evaluate evaluate_current
  switch_off_in-mode env idle op w e = ground arith
  switch_off_in-mode env _ op w e = ground arith

  finalize_in-mode :
      (env : Env plant) (m : Mode) (op : Operation) (w : World)
      → op.current_state ≡ m
      → (finalize_in env m op w).0.current_state
        ≡ next_mode (λ k. Defs.is_empty (op.states k)) do_finalize m
  unfolding finalize_in on_state leave
  finalize_in-mode env idle op w e = ground arith
  finalize_in-mode env _ op w e = ground arith

  start_in-mode :
      (env : Env plant) (step : ℤ) (m : Mode) (op : Operation) (w : World)
      → op.current_state ≡ m
      → (start_in env step m op w).0.current_state
        ≡ next_mode (λ k. Defs.is_empty (op.states k)) (do_start step) m
  unfolding start_in on_state leave enter enter_and_evaluate to_run_state resume evaluate_current
  start_in-mode env step idle op w e = ground arith
  start_in-mode env step _ op w e = ground arith

  -- A command, before the request to turn the operation off that it may end with is carried out,
  -- leads to the state that next_mode gives.
  pub execute-next_mode :
      (env : Env plant) (c : Command) (op : Operation) (w : World)
      → (execute env c op w).0.current_state
        ≡ next_mode (λ m. Defs.is_empty (op.states m)) c op.current_state
  unfolding execute pause_operation stop_operation switch_off finalize start_operation
  execute-next_mode env do_pause op w = pause_in-mode env op.current_state op w refl
  execute-next_mode env do_stop op w = stop_in-mode env op.current_state op w refl
  execute-next_mode env do_switch_off op w = switch_off_in-mode env op.current_state op w refl
  execute-next_mode env do_finalize op w = finalize_in-mode env op.current_state op w refl
  execute-next_mode env (do_start step) op w = start_in-mode env step op.current_state op w refl

  -- A history of commands, each at a time of its own.
  unfoldable pub execute_all : List (Env plant × Command) → Operation → World → Operation × World
  unfolding execute
  execute_all [] op w = (op, w)
  execute_all ((env, c) ∷ cs) op w = let (op', w', _) = execute env c op w in execute_all cs op' w'

  next_mode-completing :
      (empty : Mode → Bool) (c : Command) (m : Mode)
      → m ≢ completing
      → next_mode empty c m ≢ completing
  next_mode-completing empty do_pause idle h = ground arith
  next_mode-completing empty _ _ h = ground arith

  -- No sequence of commands brings an operation that is not in the state COMPLETING into it.
  pub execute_all-completing :
      (cs : List (Env plant × Command)) (op : Operation) (w : World)
      → op.current_state ≢ completing
      → (execute_all cs op w).0.current_state ≢ completing
  unfolding execute_all
  execute_all-completing [] op w h = h
  execute_all-completing ((env, c) ∷ cs) op w h =
      execute_all-completing cs (execute env c op w).0 (execute env c op w).1 (
        rw (execute-next_mode env c op w)
          (next_mode-completing (λ m. Defs.is_empty (op.states m)) c op.current_state h))
