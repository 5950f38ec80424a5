-- ===== src/Counter/State.antt =====
-- base_counter::get_state, the commands and the round (PAC/common/device/device.cpp).
use ptusa_main.Common.{ℕ, ◌%◌, Bool, ◌&&◌, ◌||◌, not, any, is_nil, ltb, ◌==◌, if◌then◌else◌}
use ptusa_main.Common.Int.{ℤ, is_negative}
use ptusa_main.Device.{ServerCmd, set_s, set_v, set_m, manual_of}
use ptusa_main.Plant.{get_delta_millisec, word}
use ptusa_main.Counter.{Reading, Counter, s_work, s_pause, s_error, is_equal}
use ptusa_main.Counter.Quantity.{
  calculate_quantity, get_abs_quantity, direct_set_value, set_abs_value, reset, add_daily,
  close_day,
}

abbrev pub is_running : ℤ → Bool
is_running s = is_equal s 1

-- The pump does not work, where there is one, or the flow is below the minimum.
unfoldable pub is_still : Reading → Bool
is_still r = (not (is_nil r.motors) && not (any is_running r.motors)) || r.is_low_flow

-- `start_pump_working_time = get_millisec(); counter_prev_value = get_abs_quantity();`
unfoldable pub watch : Reading → Counter → Counter
watch r c = record c {
  start_pump_working_time = r.now % word;
  counter_prev_value = get_abs_quantity c;
}

-- The counter after `get_state`, whose result is its state.
unfoldable pub get_state : Reading → Counter → Counter
get_state r c =
    if is_still r
    then record c { start_pump_working_time = 0 }
    else if is_equal c.state 2 || c.start_pump_working_time == 0
    then watch r c
    else if not (get_abs_quantity c == c.counter_prev_value)
    then record (watch r c) { state = s_work }
    else if ltb (get_delta_millisec r.now c.start_pump_working_time) r.pump_dt
    then c
    else record c { state = s_error }

unfoldable pub pause : Counter → Counter
pause c = record c { state = s_pause }

unfoldable pub start : Reading → Counter → Counter
start r c =
    if is_equal c.state 2
    then record c {
      state = s_work;
      total = record c.total { last_read_val = r.raw };
      start_pump_working_time = 0;
    }
    else if is_negative c.state
    then record c { start_pump_working_time = 0; state = s_work }
    else c

unfoldable pub restart : Reading → Counter → Counter
restart r c = start r (reset c)

unfoldable pub direct_on : Reading → Counter → Counter
direct_on r c = start r c

unfoldable pub direct_off : Counter → Counter
direct_off c = c

unfoldable pub direct_set_state : Reading → ℤ → Counter → Counter
direct_set_state r n c =
    if r.is_emulator
    then record c { state = n }
    else if is_equal n 0
    then direct_off c
    else if is_equal n 1
    then direct_on r c
    else if is_equal n 2
    then pause c
    else c

-- The commands from the server: "ABS_V", "DAY_T1", "DAY_T2", "PREV_DAY_T1", "PREV_DAY_T2", and those
-- of class device.
pub data Cmd : Type 0 where
  set_abs set_day_t1 set_day_t2 set_prev_day_t1 set_prev_day_t2 : ℕ → Cmd
  set_dev : ServerCmd ℕ → Cmd

unfoldable pub set_cmd : Reading → Cmd → Counter → Counter
set_cmd r (set_abs v) c = set_abs_value v c
set_cmd r (set_day_t1 v) c = record c { day_t1 = record c.day_t1 { value = v } }
set_cmd r (set_day_t2 v) c = record c { day_t2 = record c.day_t2 { value = v } }
set_cmd r (set_prev_day_t1 v) c = record c { day_t1 = record c.day_t1 { prev_value = v } }
set_cmd r (set_prev_day_t2 v) c = record c { day_t2 = record c.day_t2 { prev_value = v } }
set_cmd r (set_dev (set_s n)) c = direct_set_state r n c
set_cmd r (set_dev (set_v v)) c = direct_set_value v c
set_cmd r (set_dev (set_m n)) c = record c { is_manual_mode = manual_of n c.is_manual_mode }

-- The parts of `evaluate_io`: the sum, the absolute sum with the daily ones, and the new day.
unfoldable pub count_total : Reading → Counter → Counter
count_total r c =
    if is_equal c.state 1 then record c { total = (calculate_quantity r c.total).0 } else c

unfoldable pub count_abs : Reading → Counter → Counter
count_abs r c =
    let (m, delta) = calculate_quantity r c.abs in
    record c { abs = m; day_t1 = add_daily delta c.day_t1; day_t2 = add_daily delta c.day_t2 }

unfoldable pub new_day : Reading → Counter → Counter
new_day r c =
    if not (c.c_day == r.yday)
    then record c { day_t1 = close_day c.day_t1; day_t2 = close_day c.day_t2; c_day = r.yday }
    else c

unfoldable pub evaluate_io : Reading → Counter → Counter
evaluate_io r c = new_day r (count_abs r (count_total r (get_state r c)))
