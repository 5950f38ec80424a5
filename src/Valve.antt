-- ===== src/Valve.antt =====
-- class valve of PAC/common/device/valve.h and valve.cpp with what its subclasses add, over the
-- discrete channels of io_device (PAC/common/bus_coupler_io.cpp). The children have a module for
-- each subclass, the virtual methods, and the queue of valves that close with a delay.
pub mod Base
pub mod Do1
pub mod Do2
pub mod Do1Di1Off
pub mod Do1Di1On
pub mod Do1Di2
pub mod Do2Di2
pub mod Bistable
pub mod MixProof
pub mod BottomMixProof
pub mod MiniFlushing
pub mod Virtual
pub mod State
pub mod Queue
pub mod Kept
pub mod KeptState
pub mod Codes
pub mod Seats
pub mod Reached
pub mod Rounds
pub mod Events
pub mod Delay
pub mod Dropped
pub mod Apart
pub mod Switched
pub mod InMode
use ptusa_main.Common.{ℕ, Bool, true, false, not, ◌&&◌, ◌==◌, if◌then◌else◌}
use ptusa_main.Common.Int.{ℤ, pos}
use ptusa_main.Device.{Device}

-- The classes, each named by its constructor in device_manager::add_io_device.
pub data Class : Type 0 where
  v_virtual v_do1 v_do2 v_do1_di1_off v_do1_di1_on v_do1_di2 v_do2_di2 v_bistable : Class
  v_mix_proof v_bottom_mix_proof v_mini_flushing : Class

-- What a call reads of `get_millisec()` and of `PAC_info`.
pub record Settings : Type 0 where
  pub now : ℕ
  pub is_emulator : Bool
  pub v_off_delay_time : ℕ
  pub v_bottom_off_delay_time : ℕ

-- `is_wired i` says that channel i has a place to be written to, `outs` is what is written there,
-- and `ins i` is what `get_DI( i )` returns. The last five fields are those of valve_DO2_DI2_bistable
-- and valve_bottom_mix_proof.
pub record Valve : Type 0 where
  pub class : Class
  pub dev : Device ℕ
  pub is_on_fb : Bool
  pub is_off_fb : Bool
  pub on_fb : Bool
  pub off_fb : Bool
  pub is_switching_off : Bool
  pub start_off_time : ℕ
  pub was_on_auto : Bool
  pub start_switch_time : ℕ
  pub p_on_time : ℕ
  pub p_fb : ℕ
  pub is_wired : ℕ → Bool
  pub outs : ℕ → ℕ
  pub ins : ℕ → ℕ
  pub is_stoped : Bool
  pub is_opening : Bool
  pub is_closing : Bool
  pub is_closing_mini : Bool
  pub mini_start_off_time : ℕ

-- The channels of io_device.
abbrev pub get_do : Valve → ℕ → ℕ
get_do v i = if v.is_wired i then v.outs i else 0

abbrev pub set_do : ℕ → ℕ → Valve → Valve
set_do i x v = record v { outs = λ k. if k == i && v.is_wired i then x else v.outs k }

abbrev pub get_di : Valve → ℕ → ℕ
get_di v i = v.ins i

-- `start_switch_time = get_millisec()`
abbrev pub start_switch : Settings → Valve → Valve
start_switch e v = record v { start_switch_time = e.now }

-- valve::VALVE_STATE, which is cast from any integer.
abbrev pub v_off : ℤ
v_off = pos 0

abbrev pub v_on : ℤ
v_on = pos 1

abbrev pub v_upper_seat : ℤ
v_upper_seat = pos 2

abbrev pub v_lower_seat : ℤ
v_lower_seat = pos 3

abbrev pub v_stop : ℤ
v_stop = pos 5

-- `z == n` with a constant that is not negative.
abbrev pub is_equal : ℤ → ℕ → Bool
is_equal (pos m) n = m == n
is_equal _ n = false

abbrev pub to_digit : Bool → ℕ
to_digit b = if b then 1 else 0
