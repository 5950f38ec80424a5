-- ===== src/Device.antt =====
-- class device of PAC/common/device/base.cpp with the methods of i_DI_device, i_DO_device and
-- i_AO_device of PAC/common/device/device.cpp: a state, a value and the manual mode.
use ptusa_main.Common.{Bool, true, false, not, ◌==◌, if◌then◌else◌}
use ptusa_main.Common.Int.{ℤ, pos}

pub record Device {ℓ} (Value : Type ℓ) : Type ℓ where
  pub state : ℤ
  pub value : Value
  pub is_manual_mode : Bool
  pub wash_flag : Bool

-- get_state() == 0 ? false : true
abbrev pub is_nonzero : ℤ → Bool
is_nonzero (pos n) = not (n == 0)
is_nonzero _ = true

-- The commands from the server that `set_cmd` tells apart by the first letter of the property. The
-- value of 'M' changes the mode only where it is 0 or 1.
pub data ServerCmd {ℓ} (Value : Type ℓ) : Type ℓ where
  set_s : ℤ → ServerCmd Value
  set_v : Value → ServerCmd Value
  set_m : ℤ → ServerCmd Value

abbrev pub manual_of : ℤ → Bool → Bool
manual_of (pos n) old = if n == 0 then false else if n == 1 then true else old
manual_of _ old = old

module _ {ℓ} {Value : Type ℓ} where
  unfoldable pub is_active : Device Value → Bool
  is_active d = is_nonzero d.state

  unfoldable pub direct_off : Value → Device Value → Device Value
  direct_off zero d = record d { state = pos 0; value = zero }

  unfoldable pub direct_on : Device Value → Device Value
  direct_on d = record d { state = pos 1 }

  unfoldable pub direct_set_state : ℤ → Device Value → Device Value
  direct_set_state n d = record d { state = n }

  unfoldable pub direct_set_value : Value → Device Value → Device Value
  direct_set_value v d = record d { value = v }

  -- The commands of the control program do nothing in the manual mode.
  unfoldable pub on : Device Value → Device Value
  unfolding direct_on
  on d = if d.is_manual_mode then d else direct_on d

  unfoldable pub off : Value → Device Value → Device Value
  unfolding direct_off
  off zero d = if d.is_manual_mode then d else direct_off zero d

  unfoldable pub set_state : ℤ → Device Value → Device Value
  unfolding direct_set_state
  set_state n d = if d.is_manual_mode then d else direct_set_state n d

  unfoldable pub set_value : Value → Device Value → Device Value
  unfolding direct_set_value
  set_value v d = if d.is_manual_mode then d else direct_set_value v d

  unfoldable pub set_cmd : ServerCmd Value → Device Value → Device Value
  unfolding direct_set_state direct_set_value
  set_cmd (set_s n) d = direct_set_state n d
  set_cmd (set_v v) d = direct_set_value v d
  set_cmd (set_m n) d = record d { is_manual_mode = manual_of n d.is_manual_mode }
