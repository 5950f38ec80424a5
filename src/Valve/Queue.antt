-- ===== src/Valve/Queue.antt =====
-- The valves that close with a delay: valve::on, valve::off and valve::evaluate of
-- PAC/common/device/valve.cpp, with the two static vectors.
use ptusa_main.Common.{
  ℕ, Bool, true, false, ◌&&◌, ◌||◌, not, List, [], ◌∷◌, ◌++◌, ltb, ◌==◌, if◌then◌else◌, for_each,
}
use ptusa_main.Common.Int.{ℤ}
use ptusa_main.Plant.{get_delta_millisec}
use ptusa_main.Valve.{Settings, Valve, is_equal}
use ptusa_main.Valve.Bistable
use ptusa_main.Valve.Virtual.{
  direct_on, direct_off, direct_set_state, get_valve_state, set_cmd, Cmd, is_switching_off_finished,
}

-- The valves by number, and the static vectors as lists of numbers.
pub record Valves : Type 0 where
  pub valve : ℕ → Valve
  pub to_switch_off : List ℕ
  pub v_bistable : List ℕ

abbrev pub update : ℕ → Valve → (ℕ → Valve) → ℕ → Valve
update d v f k = if k == d then v else f k

abbrev pub change : (Valve → Valve) → ℕ → (ℕ → Valve) → ℕ → Valve
change g d f k = if k == d then g (f k) else f k

-- digital_io_device::on, which is device::on.
unfoldable pub device_on : Settings → Valve → Valve
device_on e v = if v.dev.is_manual_mode then v else direct_on e v

unfoldable pub on_valve : Settings → Valve → Valve
on_valve e v = device_on e (record v { was_on_auto = true; is_switching_off = false })

unfoldable pub on : Settings → ℕ → Valves → Valves
on e d s = record s { valve = change (on_valve e) d s.valve }

-- The valve is closed without the delay.
unfoldable pub is_immediate : Settings → Valve → Bool
is_immediate e v =
    not v.was_on_auto || is_equal (get_valve_state e v) 2 || is_equal (get_valve_state e v) 3

unfoldable pub device_off : Settings → Valve → Valve
device_off e v = if v.dev.is_manual_mode then v else direct_off e v

abbrev pub start_off : Settings → Valve → Valve
start_off e v = record v { is_switching_off = true; start_off_time = e.now }

unfoldable pub off : Settings → ℕ → Valves → Valves
off e d s =
    let v = s.valve d in
    if is_immediate e v
    then record s { valve = change (device_off e) d s.valve }
    else if v.is_switching_off
    then s
    else record s {
      valve = change (start_off e) d s.valve;
      to_switch_off = s.to_switch_off ++ d ∷ [];
    }

-- device::set_state.
unfoldable pub set_state : Settings → ℤ → ℕ → Valves → Valves
set_state e n d s = record s {
  valve = change (λ v. if v.dev.is_manual_mode then v else direct_set_state e n v) d s.valve;
}

unfoldable pub command : Settings → Cmd → ℕ → Valves → Valves
command e c d s = record s { valve = change (set_cmd e c) d s.valve }

unfoldable pub clear_switching_off_queue : Valves → Valves
clear_switching_off_queue s = record s { to_switch_off = [] }

-- The body of the loop of `evaluate`.
unfoldable pub switch_off : Settings → Valve → Valve
switch_off e v =
    let w = if not v.dev.is_manual_mode then direct_off e v else v in
    if v.is_switching_off && ltb e.v_off_delay_time (get_delta_millisec e.now v.start_off_time)
    then record w { is_switching_off = false; was_on_auto = false }
    else v

unfoldable pub switch_all : Settings → List ℕ → (ℕ → Valve) → ℕ → Valve
switch_all e ds f = for_each (change (switch_off e)) ds f

-- `erase( remove_if( … ) )`: the valves that have not finished stay in the queue.
unfoldable pub remove_finished : Settings → List ℕ → (ℕ → Valve) → (ℕ → Valve) × List ℕ
remove_finished e [] f = (f, [])
remove_finished e (d ∷ ds) f =
    let (v, finished) = is_switching_off_finished e (f d) in
    let (g, rest) = remove_finished e ds (update d v f) in (g, if finished then rest else d ∷ rest)

unfoldable pub evaluate_bistable : Settings → List ℕ → (ℕ → Valve) → ℕ → Valve
evaluate_bistable e ds f = for_each (change (Bistable.evaluate e)) ds f

unfoldable pub evaluate_queue : Settings → Valves → Valves
evaluate_queue e s =
    let (f, rest) = remove_finished e s.to_switch_off (switch_all e s.to_switch_off s.valve) in
    record s { valve = f; to_switch_off = rest }

unfoldable pub evaluate : Settings → Valves → Valves
evaluate e s = evaluate_queue e (record s { valve = evaluate_bistable e s.v_bistable s.valve })
