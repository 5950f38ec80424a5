-- ===== src/Valve/State.antt =====
-- valve::get_state of PAC/common/device/valve.cpp: the codes of VALVE_STATE_EX.
use ptusa_main.Common.{Bool, true, ◌&&◌, ◌||◌, not, ltb, ◌==◌, if◌then◌else◌}
use ptusa_main.Common.Int.{ℤ, pos, negsuc}
use ptusa_main.Plant.{get_delta_millisec}
use ptusa_main.Valve.{Settings, Valve, Class, v_stop, is_equal}
use ptusa_main.Valve.Do2
use ptusa_main.Valve.Virtual.{get_valve_state, get_fb_state}

abbrev pub has_fb : Valve → Bool
has_fb v = v.is_off_fb || v.is_on_fb

-- `get_par( P_FB, 0 ) == FB_IS_AND_OFF`
abbrev pub is_fb_off : Valve → Bool
is_fb_off v = v.p_fb == 0

-- The time given to the valve to reach the end position is over.
abbrev pub is_late : Settings → Valve → Bool
is_late e v = ltb v.p_on_time (get_delta_millisec e.now v.start_switch_time)

unfoldable pub lower_seat_state : Valve → ℤ
lower_seat_state v =
    if v.dev.is_manual_mode then pos 23 else if has_fb v && is_fb_off v then pos 33 else pos 3

unfoldable pub upper_seat_state : Valve → ℤ
upper_seat_state v =
    if v.dev.is_manual_mode then pos 22 else if has_fb v && is_fb_off v then pos 32 else pos 2

-- The cases V_ON and V_OFF, `v` as it is after `get_fb_state`, `ok` what that returned.
unfoldable pub on_state : Settings → Bool → Valve → ℤ
on_state e ok v =
    if has_fb v
    then (if is_fb_off v
        then if v.dev.is_manual_mode then pos 31 else pos 11
        else if v.dev.is_manual_mode
        then if ok then pos 21 else if is_late e v then negsuc 11 else pos 42
        else if ok
        then pos 1
        else if is_late e v
        then negsuc 1
        else pos 40)
    else if v.dev.is_manual_mode
    then pos 21
    else pos 1

unfoldable pub off_state : Settings → Bool → Valve → ℤ
off_state e ok v =
    if has_fb v
    then (if is_fb_off v
        then if v.dev.is_manual_mode then pos 30 else pos 10
        else if v.dev.is_manual_mode
        then if ok then pos 20 else if is_late e v then negsuc 12 else pos 43
        else if ok
        then pos 0
        else if is_late e v
        then negsuc 2
        else pos 41)
    else if v.dev.is_manual_mode
    then pos 20
    else pos 0

-- `get_fb_state` is called only where there is feedback and it is turned on.
unfoldable pub read_fb : Settings → Valve → Valve × Bool
read_fb e v = if has_fb v && not (is_fb_off v) then get_fb_state e v else (v, true)

-- The cases of the switch, with the valve's state and what `read_fb` returned.
unfoldable pub state_code : Settings → ℤ → Valve × Bool → Valve → Valve × ℤ
state_code e st (w, ok) v =
    if is_equal st 3
    then (v, lower_seat_state v)
    else if is_equal st 2
    then (v, upper_seat_state v)
    else if is_equal st 1
    then (w, on_state e ok w)
    else if is_equal st 0
    then (w, off_state e ok w)
    else if is_equal st 5
    then (v, v_stop)
    else (v, pos 100)

unfoldable pub valve_get_state : Settings → Valve → Valve × ℤ
valve_get_state e v =
    if e.is_emulator then (v, v.dev.state) else state_code e (get_valve_state e v) (read_fb e v) v

-- valve_DO2 overrides the method.
unfoldable pub get_state_of : Class → Settings → Valve → Valve × ℤ
get_state_of Class.v_do2 e v = if e.is_emulator then valve_get_state e v else (v, Do2.get_state v)
get_state_of _ e v = valve_get_state e v

unfoldable pub get_state : Settings → Valve → Valve × ℤ
get_state e v = get_state_of v.class e v
