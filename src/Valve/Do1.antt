-- ===== src/Valve/Do1.antt =====
-- class valve_DO1 (PAC/common/device/device.cpp): one output, no feedback.
use ptusa_main.Common.{Bool, true, if◌then◌else◌}
use ptusa_main.Common.Int.{ℤ, pos}
use ptusa_main.Valve.{Settings, Valve, get_do, set_do}
use ptusa_main.Valve.Base

unfoldable pub direct_on : Settings → Valve → Valve
direct_on e v = if e.is_emulator then Base.direct_on v else set_do 0 1 v

unfoldable pub direct_off : Settings → Valve → Valve
direct_off e v = if e.is_emulator then Base.direct_off v else set_do 0 0 v

unfoldable pub get_valve_state : Settings → Valve → ℤ
get_valve_state e v = if e.is_emulator then v.dev.state else pos (get_do v 0)

unfoldable pub get_fb_state : Valve → Bool
get_fb_state v = true
