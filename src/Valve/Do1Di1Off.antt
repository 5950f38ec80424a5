-- ===== src/Valve/Do1Di1Off.antt =====
-- class valve_DO1_DI1_off (PAC/common/device/valve.cpp): an output and the feedback of one
-- end position.
use ptusa_main.Common.{ℕ, Bool, true, not, ltb, ◌==◌, if◌then◌else◌}
use ptusa_main.Common.Int.{ℤ, pos}
use ptusa_main.Plant.{get_delta_millisec}
use ptusa_main.Valve.{Settings, Valve, get_do, set_do, get_di, start_switch}
use ptusa_main.Valve.Base

unfoldable pub direct_on : Settings → Valve → Valve
direct_on e v =
    if e.is_emulator
    then Base.direct_on v
    else if 0 == get_do v 0
    then set_do 0 1 (start_switch e v)
    else v

unfoldable pub direct_off : Settings → Valve → Valve
direct_off e v =
    if e.is_emulator
    then Base.direct_off v
    else if not (get_do v 0 == 0)
    then set_do 0 0 (start_switch e v)
    else v

unfoldable pub get_valve_state : Settings → Valve → ℤ
get_valve_state e v = if e.is_emulator then Base.get_valve_state v else pos (get_do v 0)

-- The time of the feedback is counted from when it was last right.
unfoldable pub get_fb_state : Settings → Valve → Valve × Bool
get_fb_state e v =
    if e.is_emulator
    then (v, Base.get_fb_state v)
    else if not (get_do v 0 == get_di v 0)
    then (start_switch e v, true)
    else (v, ltb (get_delta_millisec e.now v.start_switch_time) v.p_on_time)

unfoldable pub get_on_fb_value : Valve → ℕ
get_on_fb_value v = 0

unfoldable pub get_off_fb_value : Settings → Valve → ℕ
get_off_fb_value e v = if e.is_emulator then Base.get_off_fb_value v else get_di v 0
