-- ===== src/Plant.antt =====
-- What the operations manager sees of the plant: the virtual methods of the device classes
-- (PAC/common/device/base.h and valve.h), the clock, and the parameters.
pub mod Switching
use ptusa_main.Common.{ℕ, ◌+◌, ◌-◌, ◌%◌, ◌^◌, Bool, ltb, leb, if◌then◌else◌}
use ptusa_main.Common.Int.{ℤ}

-- `device::DEVICE_TYPE`.
pub data Kind : Type 0 where
  dt_v dt_vc dt_m dt_ls dt_te dt_fs dt_gs dt_fqt dt_lt dt_qt dt_ha dt_hl dt_sb dt_di dt_do : Kind
  dt_ai dt_ao dt_wt dt_pt dt_f dt_regulator dt_hla dt_cam dt_pds dt_ts dt_g dt_none : Kind

-- The virtual methods that the actions call, on a device named by its number. `World` is the state
-- of all devices, `Value` the C++ `float`.
pub record Plant : Type 1 where
  pub World : Type 0
  pub Value : Type 0
  pub get_type : ℕ → Kind
  pub on : ℕ → World → World
  pub off : ℕ → World → World
  pub set_state : ℕ → ℕ → World → World
  pub set_value : ℕ → Value → World → World
  pub set_seat_wash_state : ℕ → Bool → World → World
  pub is_active : World → ℕ → Bool
  pub get_state : World → ℕ → ℤ
  pub get_value : World → ℕ → Value
  pub get_manual_mode : World → ℕ → Bool
  pub is_opened : World → ℕ → Bool
  pub is_closed : World → ℕ → Bool
  pub is_wash_seat_active : World → ℕ → Bool
  -- `( *dev->get_err_par() )[ 1 ] & base_error::P_IS_SUPPRESS`
  pub is_suppressed : World → ℕ → Bool
  pub zero_value : Value
  pub minus_one : Value
  -- `v != -1`
  pub is_set : Value → Bool
  -- `ms <= v` and `v > 0`
  pub ms_le : ℕ → Value → Bool
  pub is_positive_value : Value → Bool
  -- `u_int( v )` and `u_int( v * 1000L )`
  pub to_u_int_value : Value → ℕ
  pub to_ms : Value → ℕ

-- What one call reads of the clock and of the parameters: `get_millisec()`, the owner's parameters
-- by number, and the three parameters of `PAC_info` that time the washing of seats.
pub record Env (plant : Plant) : Type 0 where
  pub now : ℕ
  pub par : ℕ → plant.Value
  pub mix_flip_period : ℕ
  pub mix_flip_upper_time : ℕ
  pub mix_flip_lower_time : ℕ

-- Unsigned 32-bit: `u_int`, `u_int_4`, and `u_long` and `size_t` on the controllers.
abbrev pub word : ℕ
word = 2 ^ 32

-- get_delta_millisec( time1 ) of PAC/linux/l_dtime.cpp, with the time that `get_millisec` gives.
unfoldable pub get_delta_millisec : ℕ → ℕ → ℕ
get_delta_millisec now time1 =
    let later = if ltb now time1 then (now + 2) % word else now in
    if leb time1 later then later - time1 else (word - 1 - time1 + later) % word
