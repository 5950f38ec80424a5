-- ===== src/Valve/Do2.antt =====
-- class valve_DO2 (PAC/common/device/valve.cpp): an output to close and one to open.
use ptusa_main.Common.{Bool, true, ◌==◌, if◌then◌else◌}
use ptusa_main.Common.Int.{ℤ, pos, negsuc}
use ptusa_main.Valve.{Settings, Valve, get_do, set_do}
use ptusa_main.Valve.Base

unfoldable pub direct_on : Settings → Valve → Valve
direct_on e v = if e.is_emulator then Base.direct_on v else set_do 1 1 (set_do 0 0 v)

unfoldable pub direct_off : Settings → Valve → Valve
direct_off e v = if e.is_emulator then Base.direct_off v else set_do 1 0 (set_do 0 1 v)

-- `get_state` outside the emulator, which `get_valve_state` calls.
unfoldable pub get_state : Valve → ℤ
get_state v = let b1 = get_do v 0 in let b2 = get_do v 1 in if b1 == b2 then negsuc 0 else pos b2

unfoldable pub get_fb_state : Valve → Bool
get_fb_state v = true
