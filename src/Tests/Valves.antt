-- ===== src/Tests/Valves.antt =====
-- The theorems on valves at concrete inputs.
use ptusa_main.Common.{
  ℕ, ◌≡◌, true, false, ◌&&◌, ◌||◌, List, [], ◌∷◌, ◌==◌, if◌then◌else◌, refl, arith, contains, all,
}
use ptusa_main.Common.Int.{pos, is_negative}
use ptusa_main.Plant.{get_delta_millisec}
use ptusa_main.Valve.{Settings, Valve, Class, is_equal}
use ptusa_main.Valve.Codes.{
  shown, named, is_failed, shown-valve_get_state, is_negative-valve_get_state,
}
use ptusa_main.Valve.InMode.{in_mode, to_manual, valve_get_state-to_manual}
use ptusa_main.Valve.Switched.{IsConnected}
use ptusa_main.Valve.Reached.{get_valve_state-direct_set_state}
use ptusa_main.Valve.Events.{
  Event, call_on, call_off, call_evaluate, call_set_state, run, IsTracked, run-IsTracked,
}
use ptusa_main.Valve.Apart.{IsApart, run-IsApart}
use ptusa_main.Valve.Delay.{later}
use ptusa_main.Valve.Dropped.{IsOpen, run-evaluate-off}
use ptusa_main.Valve.Queue.{Valves, off, evaluate, start_off}
use ptusa_main.Valve.State.{valve_get_state}
use ptusa_main.Valve.Virtual.{construct, direct_set_state, get_valve_state}
use ptusa_main.Valve.Do1

-- At four seconds, outside the emulator.
abbrev plant_at : ℕ → Settings
plant_at now = record {
  now = now;
  is_emulator = false;
  v_off_delay_time = 1000;
  v_bottom_off_delay_time = 1200;
}

-- A valve with all channels in place, its output 0 on and no end position reached, with a second for
-- the feedback.
abbrev open_valve : Class → Valve
open_valve c = record (construct c 0 (λ i. true) (λ i. if i == 0 then 1 else 0) (λ i. 0)) {
  was_on_auto = true;
  p_on_time = 1000;
  p_fb = 1;
}

abbrev valves_of : Class → Valves
valves_of c = record { valve = λ d. open_valve c; to_switch_off = []; v_bistable = [] }

connected : (c : Class) → IsConnected (open_valve c)
unfolding construct
connected c = record { wired = λ i. refl; bit = λ i. ground arith }

shown-valve_get_state_example :
    shown (valve_get_state (plant_at 4000) (open_valve Class.v_do1_di2)).1
    ≡ named (get_valve_state (plant_at 4000) (open_valve Class.v_do1_di2))
shown-valve_get_state_example =
    shown-valve_get_state (plant_at 4000) (open_valve Class.v_do1_di2) refl

is_negative-valve_get_state_example :
    is_negative (valve_get_state (plant_at 4000) (open_valve Class.v_do1_di2)).1 ≡ (
      (is_equal (get_valve_state (plant_at 4000) (open_valve Class.v_do1_di2)) 1
        || is_equal (get_valve_state (plant_at 4000) (open_valve Class.v_do1_di2)) 0)
      && is_failed (plant_at 4000) (open_valve Class.v_do1_di2))
is_negative-valve_get_state_example =
    is_negative-valve_get_state (plant_at 4000) (open_valve Class.v_do1_di2) refl

valve_get_state-to_manual_example :
    (valve_get_state (plant_at 4000) (in_mode true (open_valve Class.v_do1_di2))).1
    ≡ to_manual (valve_get_state (plant_at 4000) (in_mode false (open_valve Class.v_do1_di2))).1
valve_get_state-to_manual_example =
    valve_get_state-to_manual (plant_at 4000) (open_valve Class.v_do1_di2) refl

get_valve_state-direct_set_state_example :
    get_valve_state
      (plant_at 0)
      (direct_set_state (plant_at 0) (pos 3) (open_valve Class.v_mix_proof))
    ≡ pos 3
unfolding construct
get_valve_state-direct_set_state_example =
    get_valve_state-direct_set_state (plant_at 0) 3 (open_valve Class.v_mix_proof)
      (connected Class.v_mix_proof) refl (ground arith)

abbrev some_calls : List Event
some_calls =
    call_on (plant_at 0) 1
    ∷ call_off (plant_at 100) 1
    ∷ call_set_state (plant_at 200) (pos 2) 2
    ∷ call_evaluate (plant_at 4000)
    ∷ []

run-IsTracked_example : IsTracked (run some_calls (valves_of Class.v_mix_proof))
unfolding construct
run-IsTracked_example = run-IsTracked some_calls (valves_of Class.v_mix_proof) (λ d. refl)

run-IsApart_example : IsApart (run some_calls (valves_of Class.v_mix_proof))
unfolding construct
run-IsApart_example = run-IsApart some_calls (valves_of Class.v_mix_proof) (λ d. refl)

-- Valve 3 after `off` at the start and a round at four seconds.
abbrev closed_valve : Valve
closed_valve =
    (evaluate (later 4000 (plant_at 0)) (off (plant_at 0) 3 (valves_of Class.v_do1))).valve 3

open_valve-IsOpen : IsOpen (open_valve Class.v_bottom_mix_proof)
unfolding construct
open_valve-IsOpen = record { class = refl; auto = refl; output = refl; mini = refl }

abbrev dropped_at_once : Valves
dropped_at_once = off (plant_at 0) 3 (valves_of Class.v_bottom_mix_proof)

-- Rounds in each second, and another `off`.
abbrev rounds : List Event
rounds =
    call_evaluate (plant_at 1500) ∷ call_off (plant_at 2000) 3 ∷ call_evaluate (plant_at 4000) ∷ []

run-evaluate-off_example :
    (run rounds (evaluate (later 500 (plant_at 0)) dropped_at_once)).valve 3
    ≡ start_off (plant_at 0) (open_valve Class.v_bottom_mix_proof)
unfolding construct get_delta_millisec contains all
run-evaluate-off_example =
    run-evaluate-off (plant_at 0) 500 3 rounds (valves_of Class.v_bottom_mix_proof)
      open_valve-IsOpen refl refl refl refl refl
