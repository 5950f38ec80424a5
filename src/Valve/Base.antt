-- ===== src/Valve/Base.antt =====
-- The methods of class valve itself (PAC/common/device/valve.cpp), which are those of an emulated
-- valve: the ones of class device, and feedback that `set_cmd` sets.
use ptusa_main.Common.{ℕ, Bool, true, not, ◌==◌}
use ptusa_main.Common.Int.{ℤ}
use ptusa_main.Device
use ptusa_main.Valve.{Valve, to_digit}

unfoldable pub direct_on : Valve → Valve
direct_on v = record v { dev = Device.direct_on v.dev }

unfoldable pub direct_off : Valve → Valve
direct_off v = record v { dev = Device.direct_off 0 v.dev }

unfoldable pub get_valve_state : Valve → ℤ
get_valve_state v = v.dev.state

unfoldable pub get_fb_state : Valve → Bool
get_fb_state v = true

unfoldable pub get_on_fb_value : Valve → ℕ
get_on_fb_value v = to_digit v.on_fb

unfoldable pub get_off_fb_value : Valve → ℕ
get_off_fb_value v = to_digit v.off_fb

-- device::direct_set_state, which digital_io_device::direct_set_state calls in the emulator.
unfoldable pub emulate_state : ℤ → Valve → Valve
emulate_state n v = record v { dev = Device.direct_set_state n v.dev }

-- `set_cmd` of "FB_ON_ST" and of any other property whose name begins with 'F'.
unfoldable pub set_on_fb : ℕ → Valve → Valve
set_on_fb val v = record v { on_fb = not (val == 0) }

unfoldable pub set_off_fb : ℕ → Valve → Valve
set_off_fb val v = record v { off_fb = not (val == 0) }

unfoldable pub is_switching_off_finished : Valve → Bool
is_switching_off_finished v = not v.is_switching_off

unfoldable pub is_wash_seat_active : Valve → Bool
is_wash_seat_active v = v.dev.wash_flag

unfoldable pub set_seat_wash_state : Bool → Valve → Valve
set_seat_wash_state b v = record v { dev = record v.dev { wash_flag = b } }
