-- ===== src/AsValve/Methods.antt =====
-- The methods of valve_AS and of valve_AS_DO1_DI2 (PAC/common/device/valve.cpp).
use ptusa_main.Common.{ℕ, Bool, true, false, ◌&&◌, ◌||◌, not, ltb, if◌then◌else◌}
use ptusa_main.Common.Int.{ℤ, pos}
use ptusa_main.Device
use ptusa_main.Plant.{get_delta_millisec}
use ptusa_main.Valve.{Settings, is_equal, v_upper_seat, v_lower_seat, to_digit}
use ptusa_main.AsValve.{
  Bus, AsValve, get_state_data, write_bit, clear_bits, c_open_s1, c_open_s2, c_open_s3, s_closed,
  s_opened,
}

unfoldable pub get_lower_seat_offset : AsValve → ℕ
get_lower_seat_offset v = if v.reverse_seat_connection then c_open_s3 else c_open_s2

unfoldable pub get_upper_seat_offset : AsValve → ℕ
get_upper_seat_offset v = if v.reverse_seat_connection then c_open_s2 else c_open_s3

unfoldable pub get_valve_state : Settings → Bus → AsValve → ℤ
get_valve_state e b v =
    let state = get_state_data b.ao_read v.as_number in
    let o = state c_open_s1 in
    if e.is_emulator
    then v.dev.state
    else if not o && state (get_upper_seat_offset v)
    then v_upper_seat
    else if not o && state (get_lower_seat_offset v)
    then v_lower_seat
    else pos (to_digit o)

-- The feedback agrees with the output.
abbrev pub is_agreed : Bool → Bool → Bool → Bool
is_agreed o i0 i1 = (not o && i0 && not i1) || (o && i1 && not i0)

unfoldable pub get_fb_state : Settings → Bus → AsValve → Bool
get_fb_state e b v =
    let ao = get_state_data b.ao_read v.as_number in
    let ai = get_state_data b.ai v.as_number in
    let o = ao c_open_s1 in
    if e.is_emulator
    then true
    else if is_agreed o (ai s_closed) (ai s_opened)
    then true
    else if not o && ao (get_lower_seat_offset v)
    then true
    else if not o && ao (get_upper_seat_offset v)
    then true
    else ltb (get_delta_millisec e.now v.start_switch_time) v.p_on_time

unfoldable pub get_off_fb_value : Settings → Bus → AsValve → ℕ
get_off_fb_value e b v =
    if e.is_emulator then to_digit v.off_fb else to_digit (get_state_data b.ai v.as_number s_closed)

unfoldable pub get_on_fb_value : Settings → Bus → AsValve → ℕ
get_on_fb_value e b v =
    if e.is_emulator then to_digit v.on_fb else to_digit (get_state_data b.ai v.as_number s_opened)

-- `start_switch_time = get_millisec()` where `t` holds.
abbrev pub start_if : Bool → Settings → AsValve → AsValve
start_if t e v = if t then record v { start_switch_time = e.now } else v

unfoldable pub direct_off : Settings → Bus → AsValve → Bus × AsValve
direct_off e b v = if e.is_emulator then (b, record v { dev = Device.direct_off 0 v.dev }) else (
  record b { ao_write = clear_bits v.as_number b.ao_write },
  start_if (get_state_data b.ao_write v.as_number c_open_s1) e v,
)

unfoldable pub direct_on : Settings → Bus → AsValve → Bus × AsValve
direct_on e b v =
    let n = v.as_number in
    let opened = write_bit n c_open_s1 true b.ao_write in
    let no_upper = write_bit n (get_upper_seat_offset v) false opened in
    let no_lower = write_bit n (get_lower_seat_offset v) false no_upper in
    if e.is_emulator then (b, record v { dev = Device.direct_on v.dev }) else (
      record b { ao_write = no_lower },
      start_if (not (get_state_data b.ao_write n c_open_s1)) e v,
    )

-- A case of `direct_set_state` that opens the seat with the bit `k`; the test is on the data before
-- `direct_off`.
unfoldable pub open_seat : Settings → ℕ → Bus → AsValve → Bus × AsValve
open_seat e k b v =
    let (c, w) = direct_off e b v in
    (
      record c { ao_write = write_bit v.as_number k true c.ao_write },
      start_if (not (get_state_data b.ao_write v.as_number k)) e w,
    )

unfoldable pub direct_set_state : Settings → ℤ → Bus → AsValve → Bus × AsValve
direct_set_state e n b v =
    if e.is_emulator
    then (b, record v { dev = Device.direct_set_state n v.dev })
    else if is_equal n 0
    then direct_off e b v
    else if is_equal n 1
    then direct_on e b v
    else if is_equal n 2
    then open_seat e (get_upper_seat_offset v) b v
    else if is_equal n 3
    then open_seat e (get_lower_seat_offset v) b v
    else direct_on e b v

-- valve_AS_mix_proof.
unfoldable pub open_upper_seat : Settings → Bus → AsValve → Bus × AsValve
open_upper_seat e b v = direct_set_state e v_upper_seat b v

unfoldable pub open_lower_seat : Settings → Bus → AsValve → Bus × AsValve
open_lower_seat e b v = direct_set_state e v_lower_seat b v

-- valve_AS_DO1_DI2, which has no seats.
unfoldable pub direct_set_state_seatless : Settings → ℤ → Bus → AsValve → Bus × AsValve
direct_set_state_seatless e n b v =
    if e.is_emulator
    then direct_set_state e n b v
    else if is_equal n 2 || is_equal n 3
    then (b, v)
    else direct_set_state e n b v

unfoldable pub get_valve_state_seatless : Settings → Bus → AsValve → ℤ
get_valve_state_seatless e b v =
    if e.is_emulator
    then v.dev.state
    else pos (to_digit (get_state_data b.ao_read v.as_number c_open_s1))

unfoldable pub get_fb_state_seatless : Settings → Bus → AsValve → AsValve × Bool
get_fb_state_seatless e b v =
    let o = get_state_data b.ao_read v.as_number c_open_s1 in
    let ai = get_state_data b.ai v.as_number in
    if e.is_emulator
    then (v, true)
    else if is_agreed o (ai s_closed) (ai s_opened)
    then (record v { start_err_time = e.now }, true)
    else if ltb (get_delta_millisec e.now v.start_switch_time) v.p_on_time
    then (v, true)
    else (v, ltb (get_delta_millisec e.now v.start_err_time) v.p_on_time)
