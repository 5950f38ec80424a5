-- ===== src/Valve/MixProof.antt =====
-- class valve_mix_proof (PAC/common/device/valve.cpp): outputs for the valve, its upper and its
-- lower seat.
use ptusa_main.Common.{ℕ, Bool, true, not, ◌&&◌, ◌||◌, ltb, ◌==◌, if◌then◌else◌}
use ptusa_main.Common.Int.{ℤ, pos}
use ptusa_main.Plant.{get_delta_millisec}
use ptusa_main.Valve.{
  Settings, Valve, get_do, set_do, get_di, start_switch, v_upper_seat, v_lower_seat, is_equal,
}
use ptusa_main.Valve.Base

unfoldable pub direct_on : Settings → Valve → Valve
direct_on e v =
    let w = set_do 2 0 (set_do 1 0 v) in
    if e.is_emulator
    then Base.direct_on v
    else if 0 == get_do w 0
    then set_do 0 1 (start_switch e w)
    else w

unfoldable pub get_valve_state : Settings → Valve → ℤ
get_valve_state e v =
    let o = get_do v 0 in
    if e.is_emulator
    then Base.get_valve_state v
    else if o == 0 && get_do v 1 == 1
    then v_upper_seat
    else if o == 0 && get_do v 2 == 1
    then v_lower_seat
    else pos o

unfoldable pub direct_off : Settings → Valve → Valve
direct_off e v =
    let st = get_valve_state e v in
    let was_seat = is_equal st 3 || is_equal st 2 in
    let w = set_do 2 0 (set_do 1 0 v) in
    if e.is_emulator
    then Base.direct_off v
    else if not (get_do w 0 == 0) || was_seat
    then set_do 0 0 (start_switch e w)
    else w

-- A case of `direct_set_state` that opens the seat of the output `i`.
unfoldable pub open_seat : Settings → ℕ → Valve → Valve
open_seat e i v =
    let w = direct_off e v in if get_do w i == 0 then set_do i 1 (start_switch e w) else w

unfoldable pub direct_set_state : Settings → ℤ → Valve → Valve
direct_set_state e n v =
    if e.is_emulator
    then Base.emulate_state n v
    else if is_equal n 0
    then direct_off e v
    else if is_equal n 1
    then direct_on e v
    else if is_equal n 2
    then open_seat e 1 v
    else if is_equal n 3
    then open_seat e 2 v
    else direct_on e v

unfoldable pub open_upper_seat : Settings → Valve → Valve
open_upper_seat e v = direct_set_state e v_upper_seat v

unfoldable pub open_lower_seat : Settings → Valve → Valve
open_lower_seat e v = direct_set_state e v_lower_seat v

unfoldable pub get_fb_state : Settings → Valve → Bool
get_fb_state e v =
    let o = get_do v 0 in
    let i1 = get_di v 0 in
    let i0 = get_di v 1 in
    if e.is_emulator
    then Base.get_fb_state v
    else if (o == 0 && i0 == 1 && i1 == 0) || (o == 1 && i1 == 1 && i0 == 0)
    then true
    else if o == 0 && get_do v 2 == 1
    then true
    else if o == 0 && get_do v 1 == 1
    then true
    else ltb (get_delta_millisec e.now v.start_switch_time) v.p_on_time

unfoldable pub get_on_fb_value : Settings → Valve → ℕ
get_on_fb_value e v = if e.is_emulator then Base.get_on_fb_value v else get_di v 0

unfoldable pub get_off_fb_value : Settings → Valve → ℕ
get_off_fb_value e v = if e.is_emulator then Base.get_off_fb_value v else get_di v 1
