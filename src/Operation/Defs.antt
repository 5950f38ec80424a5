-- ===== src/Operation/Defs.antt =====
-- The fields of class operation and its commands pause, stop, start, switch_off and finalize
-- (PAC/common/operation_mngr.cpp).
use ptusa_main.Common.{ℕ, ◌+◌, ◌%◌, Bool, true, false, ◌==◌, if◌then◌else◌}
use ptusa_main.Common.Int.{ℤ, pos, negsuc, pos_part, is_positive}
use ptusa_main.Plant.{Plant, Env, word}
use ptusa_main.State.Defs
use ptusa_main.State.Defs.{State}
use ptusa_main.State.Evaluate
use ptusa_main.State.Evaluate.{Request, keep_on, off_mode}
use ptusa_main.Operation.Mode.{
  Mode, idle, run, pause, stop, starting, pausing, unpausing, stopping, update,
}

pub record Operation : Type 0 where
  pub current_state : Mode
  pub states : Mode → State
  pub operation_num : ℕ
  pub run_step : ℤ
  pub run_time : ℕ
  pub start_warn : ℕ
  pub start_wait : ℕ
  pub is_first_goto_next_state : Bool
  pub was_fail : Bool

unfoldable pub new_operation : ℕ → ℕ → Operation
new_operation now n = record {
  current_state = idle;
  states = λ _. Defs.new_state now (pos n);
  operation_num = n;
  run_step = negsuc 0;
  run_time = 0;
  start_warn = 0;
  start_wait = 0;
  is_first_goto_next_state = true;
  was_fail = false;
}

abbrev pub put : Mode → State → Operation → Operation
put m st op = record op { states = update m st op.states }

-- a == b, where b may be -1.
abbrev pub is_step : ℕ → ℤ → Bool
is_step a (pos b) = a == b
is_step a (negsuc _) = false

module _ ⦃plant : Plant⦄ where
  open plant use {World}

  -- states[ m ]->f( … )
  unfoldable pub on_state :
      (State → World → State × World) → Mode → Operation → World → Operation × World
  on_state f m op w = let (st, w') = f (op.states m) w in (put m st op, w')

  unfoldable pub leave : Env plant → Mode → Operation → World → Operation × World
  unfolding on_state
  leave env m op w = on_state (Defs.finalize env) m op w

  -- current_state = m; states[ m ]->init();
  unfoldable pub enter : Env plant → Mode → Operation → World → Operation × World
  unfolding on_state
  enter env m op w = on_state (Defs.init env 1) m (record op { current_state = m }) w

  -- states[ current_state ]->evaluate()
  unfoldable pub evaluate_current : Env plant → Operation → World → Operation × World × Request
  evaluate_current env op w =
      let (st, w', request) = Evaluate.evaluate env (op.states op.current_state) w in
      (put op.current_state st op, w', request)

  unfoldable pub enter_and_evaluate :
      Env plant → Mode → Operation → World → Operation × World × Request
  unfolding enter evaluate_current
  enter_and_evaluate env m op w = let (op', w') = enter env m op w in evaluate_current env op' w'

  -- The state itself, or the state before it that a state of its own leads to it.
  abbrev pub by_way_of : Operation → Mode → Mode → Mode
  by_way_of op via m = if Defs.is_empty (op.states via) then m else via

  -- The time and the step of RUN are kept, with its extra steps, and it is finalized.
  unfoldable pub leave_run : Env plant → Operation → World → Operation × World
  unfolding on_state
  leave_run env op w =
      let kept = record op {
        run_time = (op.run_time + Defs.evaluation_time env.now (op.states run)) % word;
        run_step = pos (Defs.active_step (op.states run));
      } in
      on_state (λ st v. Defs.finalize env (Defs.save st) v) run kept w

  unfoldable pub pause_in : Env plant → Mode → Operation → World → Operation × World × Request
  unfolding leave_run leave enter enter_and_evaluate
  pause_in env run op w =
      let (op', w') = leave_run env op w in
      enter_and_evaluate env (by_way_of op' pausing pause) op' w'
  pause_in env pausing op w =
      let (op1, w1) = leave env pausing op w in
      let (op2, w2) = enter env pause op1 w1 in (op2, w2, keep_on)
  pause_in env _ op w = (op, w, keep_on)

  -- operation::pause
  unfoldable pub pause_operation : Env plant → Operation → World → Operation × World × Request
  unfolding pause_in
  pause_operation env op w = pause_in env op.current_state op w

  unfoldable pub stop_from : Env plant → Operation → World → Operation × World × Request
  unfolding leave enter_and_evaluate
  stop_from env op w =
      let (op', w') = leave env op.current_state op w in
      enter_and_evaluate env (by_way_of op' stopping stop) op' w'

  unfoldable pub stop_in : Env plant → Mode → Operation → World → Operation × World × Request
  unfolding stop_from
  stop_in env pausing op w = stop_from env op w
  stop_in env pause op w = stop_from env op w
  stop_in env unpausing op w = stop_from env op w
  stop_in env starting op w = stop_from env op w
  stop_in env run op w = stop_from env op w
  stop_in env stopping op w =
      let (op', w') = leave env op.current_state op w in enter_and_evaluate env stop op' w'
  stop_in env _ op w = (op, w, keep_on)

  -- operation::stop
  unfoldable pub stop_operation : Env plant → Operation → World → Operation × World × Request
  unfolding stop_in
  stop_operation env op w = stop_in env op.current_state op w

  unfoldable pub switch_off_in : Env plant → Mode → Operation → World → Operation × World × Request
  unfolding leave enter_and_evaluate
  switch_off_in env idle op w = (op, w, keep_on)
  switch_off_in env _ op w =
      let (op', w') = leave env op.current_state op w in enter_and_evaluate env idle op' w'

  -- operation::switch_off
  unfoldable pub switch_off : Env plant → Operation → World → Operation × World × Request
  unfolding switch_off_in
  switch_off env op w = switch_off_in env op.current_state op w

  -- The step that `to_run_state` starts from, and whether its time before the pause is added.
  unfoldable pub resumed_step : ℤ → ℤ → ℕ
  resumed_step new_run_step run_step =
      if is_positive new_run_step
      then pos_part new_run_step
      else if is_positive run_step
      then pos_part run_step
      else 1

  unfoldable pub is_resumed : ℤ → ℤ → Bool
  is_resumed new_run_step run_step =
      if is_positive new_run_step
      then is_step (pos_part new_run_step) run_step
      else is_positive run_step

  unfoldable pub resume_state : Env plant → ℤ → ℤ → State → World → State × World
  unfolding resumed_step is_resumed
  resume_state env new_run_step run_step st w =
      let (st', w') = Defs.init env (resumed_step new_run_step run_step) (Defs.load st) w in
      (if is_resumed new_run_step run_step then Defs.add_dx_step_time st' else st', w')

  -- to_run_state, before the call of `evaluate` that ends it.
  unfoldable pub resume : Env plant → ℤ → Operation → World → Operation × World
  unfolding on_state resume_state
  resume env new_run_step op w =
      on_state (resume_state env new_run_step op.run_step) run (record op { current_state = run }) w

  unfoldable pub to_run_state : Env plant → ℤ → Operation → World → Operation × World × Request
  unfolding resume evaluate_current
  to_run_state env new_run_step op w =
      let (op', w') = resume env new_run_step op w in evaluate_current env op' w'

  unfoldable pub start_in : Env plant → ℤ → Mode → Operation → World → Operation × World × Request
  unfolding leave enter enter_and_evaluate to_run_state
  start_in env step idle op w =
      let (op1, w1) = leave env idle op w in
      let (op2, w2) = enter env (by_way_of op1 starting run) op1 w1 in
      (record op2 { run_time = 0 }, w2, keep_on)
  start_in env step pause op w =
      let (op', w') = leave env pause op w in
      if Defs.is_empty (op'.states unpausing)
      then to_run_state env step op' w'
      else enter_and_evaluate env unpausing op' w'
  start_in env step starting op w =
      let (op1, w1) = leave env starting op w in
      let (op2, w2) = enter env run op1 w1 in (record op2 { run_time = 0 }, w2, keep_on)
  start_in env step unpausing op w = to_run_state env step op w
  start_in env step _ op w = (op, w, keep_on)

  -- operation::start( int ), and operation::start() on the step that was kept.
  unfoldable pub start_operation : Env plant → ℤ → Operation → World → Operation × World × Request
  unfolding start_in
  start_operation env new_run_step op w = start_in env new_run_step op.current_state op w

  unfoldable pub start_kept : Env plant → Operation → World → Operation × World × Request
  unfolding start_operation
  start_kept env op w = start_operation env op.run_step op w

  -- operation::finalize
  unfoldable pub finalize_in : Env plant → Mode → Operation → World → Operation × World
  unfolding leave
  finalize_in env idle op w = (op, w)
  finalize_in env _ op w =
      let (op', w') = leave env op.current_state op w in
      (record op' { states = λ m. Defs.reset_eval_time (op'.states m); current_state = idle }, w')

  unfoldable pub finalize : Env plant → Operation → World → Operation × World
  unfolding finalize_in
  finalize env op w = finalize_in env op.current_state op w

  -- operation::evaluation_time
  unfoldable pub evaluation_time : Env plant → Operation → ℕ
  evaluation_time env op = elim op.current_state [
    | run ↦ (op.run_time + Defs.evaluation_time env.now (op.states run)) % word
    | _ ↦ op.run_time
  ]
