-- ===== src/AsValve/Nibbles.antt =====
-- The valves on AS-i that share a byte do not disturb each other, and read back what they write
-- (PAC/common/device/valve.cpp).
use ptusa_main.Common.{ℕ, ◌≡◌, ◌<◌, Bool, true, false, ◌&&◌, ◌||◌, ◌==◌, if◌then◌else◌, arith}
use ptusa_main.Common.Int.{ℤ}
use ptusa_main.Valve.{Settings}
use ptusa_main.AsValve.{
  Data, Bus, AsValve, get_data_with_offset, offset_of, get_state_data, write_bit, clear_bits,
  c_open_s1,
}
use ptusa_main.AsValve.Methods.{
  get_upper_seat_offset, get_lower_seat_offset, direct_on, direct_off, open_seat, direct_set_state,
}

-- Two numbers do not have the same four bits of the same byte.
cells_apart :
    (n m : ℕ)
    → ((get_data_with_offset n == get_data_with_offset m) && (offset_of n == offset_of m))
      ≡ (n == m)
unfolding get_data_with_offset offset_of
cells_apart n m = ground arith

offset_cases : (n : ℕ) → (offset_of n == 0 || offset_of n == 4) ≡ true
unfolding offset_of
offset_cases n = ground arith

pub read_write :
    (n m k j : ℕ) (b : Bool) (d : Data)
    → k < 4
    → j < 4
    → get_state_data (write_bit n k b d) m j
      ≡ (if n == m && k == j then b else get_state_data d m j)
unfolding get_state_data write_bit
read_write n m k j b d p q = ground (arith, cells_apart n m, offset_cases n, offset_cases m, p, q)

pub read_clear :
    (n m j : ℕ) (d : Data)
    → j < 4
    → get_state_data (clear_bits n d) m j ≡ (if n == m then false else get_state_data d m j)
unfolding get_state_data clear_bits
read_clear n m j d q = ground (arith, cells_apart n m, offset_cases n, offset_cases m, q)

pub seat_bits : (v : AsValve) → (get_upper_seat_offset v < 4) × (get_lower_seat_offset v < 4)
unfolding get_upper_seat_offset get_lower_seat_offset
seat_bits v = ground arith

off_other :
    (e : Settings) (b : Bus) (v : AsValve) (m j : ℕ)
    → (v.as_number == m) ≡ false
    → j < 4
    → get_state_data (direct_off e b v).0.ao_write m j ≡ get_state_data b.ao_write m j
unfolding direct_off
off_other e b v m j n q = ground (arith, n, read_clear v.as_number m j b.ao_write q)

on_other :
    (e : Settings) (b : Bus) (v : AsValve) (m j : ℕ)
    → (v.as_number == m) ≡ false
    → j < 4
    → get_state_data (direct_on e b v).0.ao_write m j ≡ get_state_data b.ao_write m j
unfolding direct_on
on_other e b v m j n q =
    let k = v.as_number in
    let u = get_upper_seat_offset v in
    let one = write_bit k c_open_s1 true b.ao_write in
    let two = write_bit k u false one in
    ground (
      arith,
      n,
      read_write k m c_open_s1 j true b.ao_write (ground arith) q,
      read_write k m u j false one (seat_bits v).0 q,
      read_write k m (get_lower_seat_offset v) j false two (seat_bits v).1 q,
    )

seat_other :
    (e : Settings) (k : ℕ) (b : Bus) (v : AsValve) (m j : ℕ)
    → k < 4
    → (v.as_number == m) ≡ false
    → j < 4
    → get_state_data (open_seat e k b v).0.ao_write m j ≡ get_state_data b.ao_write m j
unfolding open_seat
seat_other e k b v m j p n q = ground (
  arith,
  n,
  read_write v.as_number m k j true (direct_off e b v).0.ao_write p q,
  off_other e b v m j n q,
)

pub state_other :
    (e : Settings) (st : ℤ) (b : Bus) (v : AsValve) (m j : ℕ)
    → (v.as_number == m) ≡ false
    → j < 4
    → get_state_data (direct_set_state e st b v).0.ao_write m j ≡ get_state_data b.ao_write m j
unfolding direct_set_state
state_other e st b v m j n q = ground (
  arith,
  off_other e b v m j n q,
  on_other e b v m j n q,
  seat_other e (get_upper_seat_offset v) b v m j (seat_bits v).0 n q,
  seat_other e (get_lower_seat_offset v) b v m j (seat_bits v).1 n q,
)
