-- ===== src/Counter/Virtual.antt =====
-- class virtual_counter of PAC/common/device/base.cpp.
use ptusa_main.Common.{ℕ, ◌+◌, ◌-◌, ◌%◌, Bool, false, not, ltb, if◌then◌else◌}
use ptusa_main.Common.Int.{ℤ}
use ptusa_main.Device
use ptusa_main.Device.{Device, ServerCmd, set_s, set_v, set_m}
use ptusa_main.Plant.{word}
use ptusa_main.Counter.{s_work, s_pause, is_equal}

pub record VirtualCounter : Type 0 where
  pub dev : Device ℕ
  pub flow_value : ℕ
  pub last_read_value : ℕ
  pub abs_value : ℕ
  pub abs_last_read_value : ℕ
  pub is_first_read : Bool

unfoldable pub start : VirtualCounter → VirtualCounter
start c = record c { dev = Device.direct_set_state s_work c.dev }

unfoldable pub pause : VirtualCounter → VirtualCounter
pause c = record c { dev = Device.direct_set_state s_pause c.dev }

unfoldable pub reset : VirtualCounter → VirtualCounter
reset c = record c { dev = Device.direct_set_value 0 c.dev }

unfoldable pub direct_on : VirtualCounter → VirtualCounter
direct_on c = start c

unfoldable pub direct_off : VirtualCounter → VirtualCounter
direct_off c = reset c

unfoldable pub direct_set_state : ℤ → VirtualCounter → VirtualCounter
direct_set_state n c =
    if is_equal n 1
    then start c
    else if is_equal n 2
    then pause c
    else record c { dev = Device.direct_set_state n c.dev }

unfoldable pub get_quantity : VirtualCounter → ℕ
get_quantity c = c.dev.value % word

unfoldable pub get_flow : VirtualCounter → ℕ
get_flow c = c.flow_value

unfoldable pub get_abs_quantity : VirtualCounter → ℕ
get_abs_quantity c = c.abs_value

unfoldable pub abs_reset : VirtualCounter → VirtualCounter
abs_reset c = record c { abs_value = 0 }

-- The commands from the server: "ABS_V", "F" and those of class device.
pub data Cmd : Type 0 where
  set_abs set_flow : ℕ → Cmd
  set_dev : ServerCmd ℕ → Cmd

unfoldable pub set_cmd : Cmd → VirtualCounter → VirtualCounter
set_cmd (set_abs v) c = record c { abs_value = v % word }
set_cmd (set_flow v) c = record c { flow_value = v }
set_cmd (set_dev (set_s n)) c = direct_set_state n c
set_cmd (set_dev (set_v v)) c = record c { dev = Device.direct_set_value v c.dev }
set_cmd (set_dev (set_m n)) c = record c {
  dev = record c.dev { is_manual_mode = Device.manual_of n c.dev.is_manual_mode };
}

unfoldable pub set : ℕ → ℕ → ℕ → VirtualCounter → VirtualCounter
set new_value new_abs_value flow c = record c {
  dev = Device.direct_set_value new_value c.dev;
  abs_value = new_abs_value;
  flow_value = flow;
}

-- The sums grow by what the readings have grown, but for the first reading.
unfoldable pub add_read : ℕ → ℕ → VirtualCounter → VirtualCounter
add_read read_value abs_read_value c = record c {
  dev =
      if ltb c.last_read_value read_value
      then Device.direct_set_value (c.dev.value + (read_value - c.last_read_value)) c.dev
      else c.dev;
  abs_value =
      if ltb c.abs_last_read_value abs_read_value
      then (c.abs_value + (abs_read_value - c.abs_last_read_value)) % word
      else c.abs_value;
}

unfoldable pub eval : ℕ → ℕ → ℕ → VirtualCounter → VirtualCounter
eval read_value abs_read_value read_flow c =
    record (if not c.is_first_read then add_read read_value abs_read_value c else c) {
      is_first_read = false;
      last_read_value = read_value;
      abs_last_read_value = abs_read_value;
      flow_value = read_flow;
    }
