-- ===== src/Counter.antt =====
-- The counters of volume: base_counter and counter of PAC/common/device/device.cpp, and
-- virtual_counter of PAC/common/device/base.cpp.
pub mod Quantity
pub mod State
pub mod Virtual
pub mod Pulses
use ptusa_main.Common.{ℕ, Bool, true, false, List, ◌==◌, if◌then◌else◌}
use ptusa_main.Common.Int.{ℤ, pos, negsuc}

-- i_counter::STATES.
abbrev pub s_work : ℤ
s_work = pos 1

abbrev pub s_pause : ℤ
s_pause = pos 2

abbrev pub s_error : ℤ
s_error = negsuc 9

-- `z == n` with a constant that is not negative.
abbrev pub is_equal : ℤ → ℕ → Bool
is_equal (pos m) n = m == n
is_equal _ n = false

-- What a call reads: the clock, `get_raw_value()` and `get_max_raw_value()`, the states of the motors
-- that are linked, whether `get_flow() <= get_min_flow()`, `get_pump_dt()` and the day of the year.
pub record Reading : Type 0 where
  pub now : ℕ
  pub is_emulator : Bool
  pub raw : ℕ
  pub max_raw : ℕ
  pub motors : List ℤ
  pub is_low_flow : Bool
  pub pump_dt : ℕ
  pub yday : ℕ

-- The three variables that calculate_quantity changes.
pub record Meter : Type 0 where
  pub val : ℕ
  pub last_read_val : ℕ
  pub is_first : Bool

-- The counter of one of the two daily sums.
pub record Daily : Type 0 where
  pub is_paused : Bool
  pub value : ℕ
  pub prev_value : ℕ

-- class base_counter, with the state and the mode of class device.
pub record Counter : Type 0 where
  pub state : ℤ
  pub is_manual_mode : Bool
  pub start_pump_working_time : ℕ
  pub counter_prev_value : ℕ
  pub total : Meter
  pub abs : Meter
  pub day_t1 : Daily
  pub day_t2 : Daily
  pub c_day : ℕ
