-- ===== src/AsValve/ReadBack.antt =====
-- What a valve on AS-i reads back after a command, and what its neighbours do
-- (PAC/common/device/valve.cpp).
use ptusa_main.Common.{
  ℕ, ◌≡◌, ◌<◌, refl, ◌∙◌, Bool, true, false, ◌&&◌, not, ◌==◌, if◌then◌else◌, arith,
}
use mathlib.Core.Path.{ap₂}
use ptusa_main.Common.Int.{ℤ, pos}
use ptusa_main.Valve.{Settings, v_upper_seat, v_lower_seat, to_digit}
use ptusa_main.AsValve.{Data, Bus, AsValve, get_state_data, write_bit, c_open_s1}
use ptusa_main.AsValve.Methods.{
  get_valve_state, get_upper_seat_offset, get_lower_seat_offset, direct_on, direct_off, open_seat,
  direct_set_state,
}
use ptusa_main.AsValve.Nibbles.{read_write, read_clear, seat_bits, state_other}

-- The gateway has taken over what was written.
abbrev pub exchanged : Bus → Bus
exchanged b = record b { ao_read = b.ao_write }

-- The three outputs of a valve in the data written: the valve, the upper and the lower seat.
abbrev Wrote : Bus × AsValve → AsValve → Bool → Bool → Bool → Type 0
Wrote r v o u l =
    (r.1.as_number ≡ v.as_number)
    × (r.1.reverse_seat_connection ≡ v.reverse_seat_connection)
    × (get_state_data r.0.ao_write v.as_number c_open_s1 ≡ o)
    × (get_state_data r.0.ao_write v.as_number (get_upper_seat_offset v) ≡ u)
    × (get_state_data r.0.ao_write v.as_number (get_lower_seat_offset v) ≡ l)

same_seats :
    (v w : AsValve)
    → w.reverse_seat_connection ≡ v.reverse_seat_connection
    → (get_upper_seat_offset w ≡ get_upper_seat_offset v)
      × (get_lower_seat_offset w ≡ get_lower_seat_offset v)
unfolding get_upper_seat_offset get_lower_seat_offset
same_seats v w h = ground (arith, h)

-- A bit of a valve with the same number.
same_bit :
    (d : Data) (n m k j : ℕ) (b : Bool)
    → n ≡ m
    → k ≡ j
    → get_state_data d m j ≡ b
    → get_state_data d n k ≡ b
same_bit d n m k j b p q h = ap₂ (get_state_data d) p q ∙ h

read_back :
    (e : Settings) (r : Bus × AsValve) (v : AsValve) (o u l : Bool)
    → e.is_emulator ≡ false
    → Wrote r v o u l
    → get_valve_state e (exchanged r.0) r.1
      ≡ (if not o && u then v_upper_seat else if not o && l then v_lower_seat else pos (to_digit o))
unfolding get_valve_state
read_back e (c, w) v o u l h (n, s, x, y, z) =
    let d = c.ao_write in
    let i = w.as_number in
    let j = v.as_number in
    ground (
      arith,
      h,
      same_bit d i j c_open_s1 c_open_s1 o n refl x,
      same_bit d i j (get_upper_seat_offset w) (get_upper_seat_offset v) u n (same_seats v w s).0 y,
      same_bit d i j (get_lower_seat_offset w) (get_lower_seat_offset v) l n (same_seats v w s).1 z,
    )

off-Wrote :
    (e : Settings) (b : Bus) (v : AsValve)
    → e.is_emulator ≡ false
    → Wrote (direct_off e b v) v false false false
unfolding direct_off
off-Wrote e b v h =
    let n = v.as_number in
    let d = b.ao_write in
    ground (
      arith,
      read_clear n n c_open_s1 d (ground arith),
      read_clear n n (get_upper_seat_offset v) d (seat_bits v).0,
      read_clear n n (get_lower_seat_offset v) d (seat_bits v).1,
      h,
    )

seats_differ :
    (v : AsValve)
    → ((get_upper_seat_offset v == get_lower_seat_offset v) ≡ false)
      × ((c_open_s1 == get_upper_seat_offset v) ≡ false)
      × ((c_open_s1 == get_lower_seat_offset v) ≡ false)
unfolding get_upper_seat_offset get_lower_seat_offset
seats_differ v = ground arith

on_Wrote :
    (e : Settings) (b : Bus) (v : AsValve)
    → e.is_emulator ≡ false
    → Wrote (direct_on e b v) v true false false
unfolding direct_on
on_Wrote e b v h =
    let n = v.as_number in
    let u = get_upper_seat_offset v in
    let l = get_lower_seat_offset v in
    let one = write_bit n c_open_s1 true b.ao_write in
    let two = write_bit n u false one in
    let (pu, pl) = seat_bits v in
    let po : c_open_s1 < 4 = ground arith in
    ground (
      arith,
      h,
      seats_differ v,
      read_write n n l c_open_s1 false two pl po,
      read_write n n u c_open_s1 false one pu po,
      read_write n n c_open_s1 c_open_s1 true b.ao_write po po,
      read_write n n l u false two pl pu,
      read_write n n u u false one pu pu,
      read_write n n l l false two pl pl,
    )

seat-Wrote :
    (e : Settings) (k : ℕ) (b : Bus) (v : AsValve)
    → e.is_emulator ≡ false
    → k < 4
    → (k == c_open_s1) ≡ false
    → Wrote
        (open_seat e k b v)
        v
        false
        (k == get_upper_seat_offset v)
        (k == get_lower_seat_offset v)
unfolding open_seat
seat-Wrote e k b v h p n =
    let i = v.as_number in
    let d = (direct_off e b v).0.ao_write in
    ground (
      arith,
      n,
      off-Wrote e b v h,
      read_write i i k c_open_s1 true d p (ground arith),
      read_write i i k (get_upper_seat_offset v) true d p (seat_bits v).0,
      read_write i i k (get_lower_seat_offset v) true d p (seat_bits v).1,
    )

abbrev pub state_after : Settings → ℕ → Bus → AsValve → ℤ
state_after e st b v =
    let (c, w) = direct_set_state e (pos st) b v in get_valve_state e (exchanged c) w

state_self :
    (e : Settings) (st : ℕ) (b : Bus) (v : AsValve)
    → e.is_emulator ≡ false
    → st < 4
    → state_after e st b v ≡ pos st
unfolding direct_set_state
state_self e st b v h p =
    let u = get_upper_seat_offset v in
    let l = get_lower_seat_offset v in
    let (pu, pl) = seat_bits v in
    let (d, du, dl) = seats_differ v in
    let off = read_back e (direct_off e b v) v _ _ _ h (off-Wrote e b v h) in
    let on = read_back e (direct_on e b v) v _ _ _ h (on_Wrote e b v h) in
    let upper =
      read_back e (open_seat e u b v) v _ _ _ h (seat-Wrote e u b v h pu (ground (arith, du))) in
    let lower =
      read_back e (open_seat e l b v) v _ _ _ h (seat-Wrote e l b v h pl (ground (arith, dl))) in
    ground (arith, h, p, off, on, upper, lower, d)

-- Outside the emulator, a valve on AS-i that is told a state from off to lower seat has that state
-- when the gateway has taken over the data, and none of the four bits of any valve with another
-- number changes, though valves share bytes.
pub get_state_data-direct_set_state :
    (e : Settings) (st m j : ℕ) (b : Bus) (v : AsValve)
    → e.is_emulator ≡ false
    → st < 4
    → (v.as_number == m) ≡ false
    → j < 4
    → (state_after e st b v ≡ pos st)
      × (get_state_data (direct_set_state e (pos st) b v).0.ao_write m j
          ≡ get_state_data b.ao_write m j)
get_state_data-direct_set_state e st m j b v h p n q =
    (state_self e st b v h p, state_other e (pos st) b v m j n q)
