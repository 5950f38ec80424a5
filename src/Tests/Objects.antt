-- ===== src/Tests/Objects.antt =====
-- The theorems on technological objects at concrete inputs.
use ptusa_main.Common.{◌≡◌, refl, true, arith, any}
use ptusa_main.Common.Int.{pos, negsuc}
use ptusa_main.Operation.Mode.{idle}
use ptusa_main.Operation.Defs.{new_operation}
use ptusa_main.Object.Defs.{Object, new_object, Hooks, to_on, to_pause, get_mode, set_mode}
use ptusa_main.Object.Auto.{Settings}
use ptusa_main.Object.Evaluate.{evaluate}
use ptusa_main.Object.Marked.{IsMarked, new_object-IsMarked}
use ptusa_main.Object.SetMode.{set_mode-IsMarked}
use ptusa_main.Object.Rounds.{evaluate-IsMarked}
use ptusa_main.Object.Unchecked.{set_mode-pause_idle}
use ptusa_main.Object.Bits.{is_idle, new_state}
use ptusa_main.Object.Idle.{is_idle-current_state}
use ptusa_main.Tests.Plain.{plain, lit, at}

-- Every check is passed, and nothing is done besides.
abbrev silent : Hooks plain
silent = record {
  lua_check_on_pause = λ n w. pos 0;
  lua_check_on_stop = λ n w. pos 0;
  lua_check_on_start = λ n w. pos 0;
  lua_check_on_mode = λ n w. pos 0;
  lua_check_off_mode = λ n w. pos 0;
  is_check_mode = λ n w. true;
  lua_get_run_step_after_pause = λ n w. negsuc 0;
  lua_on_pause = λ n w. w;
  lua_on_stop = λ n w. w;
  lua_on_start = λ n w. w;
  lua_init_mode = λ n w. w;
  lua_final_mode = λ n w. w;
}

abbrev tank : Object
tank = new_object 0 40

abbrev started : Object
started = (set_mode (at 100) silent 35 to_on tank lit).0

set_mode-IsMarked_example : IsMarked started
set_mode-IsMarked_example =
    set_mode-IsMarked (at 100) silent 35 to_on tank lit (new_object-IsMarked 0 40)

abbrev usual : Settings
usual = record {
  auto_operation_warn_time = 1000;
  auto_operation_wait_time = 5000;
  auto_pause_oper_on_dev_err = true;
}

evaluate-IsMarked_example : IsMarked (evaluate (at 200) silent usual started lit).0
evaluate-IsMarked_example =
    evaluate-IsMarked (at 200) silent usual started lit
      (set_mode-IsMarked (at 100) silent 35 to_on tank lit (new_object-IsMarked 0 40))

set_mode-pause_idle_example :
    (get_mode (set_mode (at 100) silent 35 to_pause tank lit).0 35 ≡ true)
    × (((set_mode (at 100) silent 35 to_pause tank lit).0.operations 35).current_state ≡ idle)
unfolding new_object new_operation
set_mode-pause_idle_example =
    set_mode-pause_idle (at 100) silent 34 tank lit (new_object-IsMarked 0 40) (omega arith) refl
      refl

is_idle-current_state_example : (tank.operations 40).current_state ≡ idle
unfolding is_idle new_object new_state any
is_idle-current_state_example =
    is_idle-current_state tank 39 (new_object-IsMarked 0 40) (omega arith) refl
