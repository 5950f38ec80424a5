-- ===== src/Tests/Operations.antt =====
-- The theorems on states and operations at concrete inputs.
use ptusa_main.Common.{suc, zero, ◌≡◌, refl, some, List, [], ◌∷◌, all, arith}
use ptusa_main.Common.Int.{pos, negsuc}
use ptusa_main.Plant.{Env}
use ptusa_main.Action.Base
use ptusa_main.Action.Dispatch
use ptusa_main.Action.Seat.{seat_is_empty}
use ptusa_main.Step
use ptusa_main.Step.{new_step}
use ptusa_main.State.Defs
use ptusa_main.State.Defs.{State, new_state, add_step}
use ptusa_main.State.Evaluate.{evaluate, keep_on, evaluate_main, evaluate_extras, enable_steps}
use ptusa_main.State.Activity.{is_on}
use ptusa_main.State.Tracked.{IsTracked, IsQuiet, AllOff, AllOff-IsTracked, finalize-IsQuiet}
use ptusa_main.State.Rounds.{evaluate-IsTracked}
use ptusa_main.Operation.Mode.{Mode, run, unpausing}
use ptusa_main.Operation.Defs.{
  Operation, new_operation, put, pause_operation, start_operation, evaluate_current, pause_in,
  leave_run, enter_and_evaluate, enter, on_state,
}
use ptusa_main.Operation.Machine.{Command, do_start, do_pause, do_stop, execute_all}
use ptusa_main.Operation.Clean.{IsClean}
use ptusa_main.Operation.Quiet.{execute_all-IsClean}
use ptusa_main.Operation.Paused.{Resumed}
use ptusa_main.Operation.Resume.{pause-start}
use ptusa_main.Tests.Plain.{plain, lit, at}

-- RUN has two steps of five seconds, and the other states none.
pub two_steps : State
two_steps =
    add_step 0 (negsuc 0) (pos 1) (negsuc 0)
      (add_step 0 (negsuc 0) (pos 1) (negsuc 0) (new_state 0 (pos 1)))

abbrev pub wash_operation : Operation
wash_operation = put run two_steps (new_operation 0 1)

two_steps_off : AllOff two_steps
unfolding two_steps add_step new_state new_step is_on
two_steps_off zero = refl
two_steps_off (suc zero) = refl
two_steps_off (suc (suc i)) = refl

two_steps-IsQuiet : IsQuiet two_steps
unfolding two_steps add_step new_state new_step
two_steps-IsQuiet = record {
  all_off = two_steps_off;
  mode_off = refl;
  no_active = refl;
  no_extra = refl;
}

new_state-IsQuiet : IsQuiet (new_state 0 (pos 1))
unfolding new_state new_step is_on
new_state-IsQuiet = record {
  all_off = λ i. refl;
  mode_off = refl;
  no_active = refl;
  no_extra = refl;
}

wash-IsQuiet : (m : Mode) → IsQuiet (wash_operation.states m)
unfolding new_operation
wash-IsQuiet run = two_steps-IsQuiet
wash-IsQuiet _ = new_state-IsQuiet

pub wash-IsClean : IsClean wash_operation
wash-IsClean = record {
  others = λ m _ _. wash-IsQuiet m;
  current = λ _.
      AllOff-IsTracked (wash_operation.states wash_operation.current_state)
        (wash-IsQuiet wash_operation.current_state).all_off;
}

abbrev history : List (Env plain × Command)
history =
    (at 0, do_start (negsuc 0))
    ∷ (at 2000, do_pause)
    ∷ (at 3000, do_start (negsuc 0))
    ∷ (at 4000, do_stop)
    ∷ []

execute_all-IsClean_example : IsClean (execute_all history wash_operation lit).0
execute_all-IsClean_example = execute_all-IsClean history wash_operation lit wash-IsClean

abbrev in_second_step : State
in_second_step = record two_steps { active_step_n = some 1 }

in_second_step-IsTracked : IsTracked in_second_step
in_second_step-IsTracked = AllOff-IsTracked in_second_step two_steps_off

evaluate-IsTracked_example : IsTracked (evaluate (at 100) in_second_step lit).0
evaluate-IsTracked_example = evaluate-IsTracked (at 100) in_second_step lit in_second_step-IsTracked

finalize-IsQuiet_example : IsQuiet (Defs.finalize (at 100) in_second_step lit).0
finalize-IsQuiet_example = finalize-IsQuiet (at 100) in_second_step lit in_second_step-IsTracked

abbrev running : Operation
running = put run in_second_step (record wash_operation { current_state = run })

pause_keeps_on : (pause_operation (at 5000) running lit).2 ≡ keep_on
unfolding new_operation new_state new_step two_steps add_step Defs.is_empty Step.is_empty all
    Dispatch.is_empty Base.is_empty seat_is_empty pause_operation pause_in leave_run
    enter_and_evaluate enter evaluate_current on_state evaluate evaluate_main evaluate_extras
    enable_steps Defs.save Defs.finalize Defs.init
pause_keeps_on = refl

pause-start_example :
    (back : Operation) × (v : plain.World) × (start_operation
        (at 9000)
        (negsuc 0)
        (pause_operation (at 5000) running lit).0
        lit
      ≡ evaluate_current (at 9000) back v)
    × (back.current_state ≡ run)
    × Resumed (at 5000) in_second_step 1 (back.states run)
unfolding new_operation new_state new_step two_steps add_step Defs.is_empty Step.is_empty all
    Dispatch.is_empty Base.is_empty seat_is_empty
pause-start_example =
    pause-start (at 5000) (at 9000) 1 running lit lit refl refl refl refl (omega arith)
      pause_keeps_on

abbrev coming_back : Operation
coming_back = record running { current_state = unpausing }
