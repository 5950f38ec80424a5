-- ===== src/Valve/BottomMixProof.antt =====
-- class valve_bottom_mix_proof (PAC/common/device/valve.cpp): outputs for the valve, the mini valve
-- that closes later, and the lower seat.
use ptusa_main.Common.{ℕ, Bool, true, false, not, ◌&&◌, ◌||◌, ltb, ◌==◌, if◌then◌else◌}
use ptusa_main.Common.Int.{ℤ, pos}
use ptusa_main.Plant.{get_delta_millisec}
use ptusa_main.Valve.{
  Settings, Valve, get_do, set_do, get_di, start_switch, v_upper_seat, v_lower_seat, is_equal,
}
use ptusa_main.Valve.Base

unfoldable pub direct_on : Settings → Valve → Valve
direct_on e v =
    let w = set_do 2 0 v in
    if e.is_emulator
    then Base.direct_on v
    else if get_do w 0 == 0
    then set_do 1 1 (set_do 0 1 (start_switch e w))
    else w

unfoldable pub get_valve_state : Settings → Valve → ℤ
get_valve_state e v =
    let o = get_do v 0 in
    if e.is_emulator
    then Base.get_valve_state v
    else if o == 0 && get_do v 1 == 1
    then v_upper_seat
    else if o == 0 && get_do v 2 == 1
    then v_lower_seat
    else pos o

-- The three steps of `direct_off`: the seat, the valve and the mini valve.
unfoldable pub close_seat : Settings → Valve → Valve
close_seat e v = if is_equal (get_valve_state e v) 3 then set_do 2 0 (start_switch e v) else v

unfoldable pub close_main : Settings → Valve → Valve
close_main e v =
    let w = record (start_switch e v) { mini_start_off_time = e.now } in
    if 1 == get_do v 0 then record (set_do 0 0 w) { is_closing_mini = true } else v

unfoldable pub close_mini : Settings → Valve → Valve
close_mini e v =
    if 1 == get_do v 1 && not v.is_closing_mini then set_do 1 0 (start_switch e v) else v

unfoldable pub direct_off : Settings → Valve → Valve
direct_off e v =
    if e.is_emulator then Base.direct_off v else close_mini e (close_main e (close_seat e v))

-- The cases V_UPPER_SEAT and V_LOWER_SEAT of `direct_set_state`.
unfoldable pub open_mini : Settings → Valve → Valve
open_mini e v =
    let w = record (direct_off e v) { is_closing_mini = false } in
    if 0 == get_do w 1 then set_do 1 1 (start_switch e w) else w

unfoldable pub open_lower : Settings → Valve → Valve
open_lower e v =
    let w = direct_off e v in if 0 == get_do w 2 then set_do 2 1 (start_switch e w) else w

unfoldable pub direct_set_state : Settings → ℤ → Valve → Valve
direct_set_state e n v =
    if e.is_emulator
    then Base.emulate_state n v
    else if is_equal n 0
    then direct_off e v
    else if is_equal n 1
    then direct_on e v
    else if is_equal n 2
    then open_mini e v
    else if is_equal n 3
    then open_lower e v
    else direct_on e v

-- There is no upper seat to open.
unfoldable pub open_upper_seat : Settings → Valve → Valve
open_upper_seat e v = v

unfoldable pub open_lower_seat : Settings → Valve → Valve
open_lower_seat e v = direct_set_state e v_lower_seat v

-- The valve leaves the queue when the answer is true.
unfoldable pub is_switching_off_finished : Settings → Valve → Valve × Bool
is_switching_off_finished e v =
    if not v.is_closing_mini
    then (v, true)
    else if ltb e.v_bottom_off_delay_time (get_delta_millisec e.now v.mini_start_off_time)
    then (direct_off e (record v { is_closing_mini = false }), true)
    else (v, false)

unfoldable pub get_fb_state : Settings → Valve → Bool
get_fb_state e v =
    let o = get_do v 0 in
    let i1 = get_di v 0 in
    let i0 = get_di v 1 in
    if e.is_emulator
    then Base.get_fb_state v
    else if (o == 0 && i0 == 1 && i1 == 0) || (o == 1 && i1 == 1 && i0 == 0)
    then true
    else if o == 0 && get_do v 2 == 1
    then true
    else ltb (get_delta_millisec e.now v.start_switch_time) v.p_on_time

unfoldable pub get_on_fb_value : Settings → Valve → ℕ
get_on_fb_value e v = if e.is_emulator then Base.get_on_fb_value v else get_di v 0

unfoldable pub get_off_fb_value : Settings → Valve → ℕ
get_off_fb_value e v = if e.is_emulator then Base.get_off_fb_value v else get_di v 1
