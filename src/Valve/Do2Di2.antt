-- ===== src/Valve/Do2Di2.antt =====
-- class valve_DO2_DI2 (PAC/common/device/valve.cpp): two outputs and both end positions.
use ptusa_main.Common.{ℕ, Bool, true, not, ◌&&◌, ltb, ◌==◌, if◌then◌else◌}
use ptusa_main.Common.Int.{ℤ, pos}
use ptusa_main.Plant.{get_delta_millisec}
use ptusa_main.Valve.{Settings, Valve, get_do, set_do, get_di, start_switch}
use ptusa_main.Valve.Base

unfoldable pub direct_on : Settings → Valve → Valve
direct_on e v =
    if e.is_emulator
    then Base.direct_on v
    else if 0 == get_do v 0
    then set_do 1 0 (set_do 0 1 (start_switch e v))
    else v

unfoldable pub direct_off : Settings → Valve → Valve
direct_off e v =
    if e.is_emulator
    then Base.direct_off v
    else if 0 == get_do v 1
    then set_do 1 1 (set_do 0 0 (start_switch e v))
    else v

unfoldable pub get_valve_state : Settings → Valve → ℤ
get_valve_state e v = if e.is_emulator then Base.get_valve_state v else pos (get_do v 1)

unfoldable pub get_fb_state : Settings → Valve → Bool
get_fb_state e v =
    let o0 = get_do v 0 in
    let o1 = get_do v 1 in
    let i0 = get_di v 0 in
    let i1 = get_di v 1 in
    if e.is_emulator
    then Base.get_fb_state v
    else if o1 == i1 && o0 == i0 && (not (o0 == o1) && not (i0 == i1))
    then true
    else ltb (get_delta_millisec e.now v.start_switch_time) v.p_on_time

unfoldable pub get_on_fb_value : Settings → Valve → ℕ
get_on_fb_value e v = if e.is_emulator then Base.get_on_fb_value v else get_di v 1

unfoldable pub get_off_fb_value : Settings → Valve → ℕ
get_off_fb_value e v = if e.is_emulator then Base.get_off_fb_value v else get_di v 0
