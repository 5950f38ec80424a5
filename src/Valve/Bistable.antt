-- ===== src/Valve/Bistable.antt =====
-- class valve_DO2_DI2_bistable (PAC/common/device/valve.cpp): an output for each direction, on
-- while the valve moves, and both end positions; it can be stopped between them.
use ptusa_main.Common.{ℕ, Bool, true, false, ◌&&◌, ◌||◌, ltb, ◌==◌, if◌then◌else◌}
use ptusa_main.Common.Int.{ℤ}
use ptusa_main.Plant.{get_delta_millisec}
use ptusa_main.Valve.{
  Settings, Valve, get_do, set_do, get_di, start_switch, v_off, v_on, v_stop, is_equal,
}
use ptusa_main.Valve.Base

unfoldable pub direct_on : Settings → Valve → Valve
direct_on e v =
    if e.is_emulator
    then Base.direct_on v
    else if 0 == get_di v 0 && get_do v 0 == 0
    then (let w = set_do 1 0 (set_do 0 1 (start_switch e v)) in
        record w { is_opening = true; is_closing = false })
    else v

unfoldable pub direct_off : Settings → Valve → Valve
direct_off e v =
    if e.is_emulator
    then Base.direct_off v
    else if 0 == get_di v 1 && get_do v 1 == 0
    then (let w = set_do 1 1 (set_do 0 0 (start_switch e v)) in
        record w { is_opening = false; is_closing = true })
    else v

unfoldable pub get_valve_state : Settings → Valve → ℤ
get_valve_state e v =
    if e.is_emulator
    then Base.get_valve_state v
    else if get_di v 0 == 1
    then v_on
    else if get_di v 1 == 1
    then v_off
    else if get_do v 0 == 1
    then v_on
    else if get_do v 1 == 1
    then v_off
    else if v.is_stoped
    then v_stop
    else v_off

unfoldable pub get_fb_state : Settings → Valve → Bool
get_fb_state e v =
    let i0 = get_di v 0 in
    let i1 = get_di v 1 in
    let dt = get_delta_millisec e.now v.start_switch_time in
    if e.is_emulator
    then Base.get_fb_state v
    else if v.is_stoped
    then true
    else if i0 == 1 && i1 == 1
    then false
    else if v.is_opening && ltb v.p_on_time dt && i1 == 1
    then false
    else if v.is_closing && ltb v.p_on_time dt && i0 == 1
    then false
    else if i0 == 1 || i1 == 1
    then true
    else ltb dt v.p_on_time

-- The direction `i` of `evaluate`: its output is turned off when the end position is reached or the
-- time is over.
unfoldable pub finish : Settings → ℕ → Valve → Valve
finish e i v =
    if get_do v i == 1
      && (get_di v i == 1 || ltb v.p_on_time (get_delta_millisec e.now v.start_switch_time))
    then set_do i 0 v
    else v

unfoldable pub evaluate : Settings → Valve → Valve
evaluate e v = if e.is_emulator then v else finish e 1 (finish e 0 v)

-- The case V_STOP of `direct_set_state`.
unfoldable pub stop : Valve → Valve
stop v =
    let w = record v { is_opening = false; is_closing = false } in
    let s = record w { is_stoped = true } in
    let t = if get_do s 0 == 1 then set_do 0 0 s else s in
    if get_di v 0 == 1 || get_di v 1 == 1 then w else if get_do t 1 == 1 then set_do 1 0 t else t

-- digital_io_device::direct_set_state, which `direct_set_state` calls after it clears `is_stoped`.
unfoldable pub direct_set_state : Settings → ℤ → Valve → Valve
direct_set_state e n v =
    let w = record v { is_stoped = false } in
    if e.is_emulator
    then Base.emulate_state n v
    else if is_equal n 5
    then stop v
    else if is_equal n 0
    then direct_off e w
    else if is_equal n 1
    then direct_on e w
    else w

unfoldable pub get_on_fb_value : Settings → Valve → ℕ
get_on_fb_value e v = if e.is_emulator then Base.get_on_fb_value v else get_di v 0

unfoldable pub get_off_fb_value : Settings → Valve → ℕ
get_off_fb_value e v = if e.is_emulator then Base.get_off_fb_value v else get_di v 1
