-- ===== src/AsValve.antt =====
-- The valves on AS-i, class valve_AS and its subclasses of PAC/common/device/valve.cpp: two valves
-- share a byte of the data that is exchanged with the gateway.
pub mod Methods
pub mod Nibbles
pub mod ReadBack
use ptusa_main.Common.{
  ℕ, ◌+◌, ◌-◌, ◌/◌, ◌%◌, Bool, true, false, ◌&&◌, ◌||◌, not, ltb, leb, ◌==◌, if◌then◌else◌,
}
use ptusa_main.Device.{Device}

-- A block of data, by byte and by bit.
abbrev pub Data : Type 0
Data = ℕ → ℕ → Bool

-- What `get_AO_read_data`, `get_AO_write_data` and `get_AI_data` of the channel lead to.
pub record Bus : Type 0 where
  pub ao_read : Data
  pub ao_write : Data
  pub ai : Data

-- class valve_AS with the fields of class valve that it uses, and `start_err_time` of
-- valve_AS_DO1_DI2.
pub record AsValve : Type 0 where
  pub dev : Device ℕ
  pub as_number : ℕ
  pub reverse_seat_connection : Bool
  pub on_fb : Bool
  pub off_fb : Bool
  pub start_switch_time : ℕ
  pub start_err_time : ℕ
  pub p_on_time : ℕ

-- MAILBOX_OFFSET.
abbrev pub mailbox_offset : ℕ
mailbox_offset = 8

-- The byte of the valve's number, and whether its bits are the upper four.
unfoldable pub get_data_with_offset : ℕ → ℕ
get_data_with_offset n =
    if ltb n 32
    then mailbox_offset + n / 2
    else mailbox_offset + 32 / 2 + (n - 32) / 2 + (n - 32) % 2

unfoldable pub offset_of : ℕ → ℕ
offset_of n = if (ltb n 32 && n % 2 == 0) || (leb 32 n && n % 2 == 1) then 4 else 0

-- The bit `k` of `get_state_data`, one of the lower four.
unfoldable pub get_state_data : Data → ℕ → ℕ → Bool
get_state_data bytes n k = bytes (get_data_with_offset n) (k + offset_of n)

-- C_OPEN_S1, C_OPEN_S2 and C_OPEN_S3, S_CLOSED and S_OPENED, as numbers of bits.
abbrev pub c_open_s1 : ℕ
c_open_s1 = 1

abbrev pub c_open_s2 : ℕ
c_open_s2 = 2

abbrev pub c_open_s3 : ℕ
c_open_s3 = 3

abbrev pub s_closed : ℕ
s_closed = 0

abbrev pub s_opened : ℕ
s_opened = 1

-- `*write_state |= bit << offset` and `*write_state &= ~( bit << offset )`.
unfoldable pub write_bit : ℕ → ℕ → Bool → Data → Data
write_bit n k b bytes i j =
    if i == get_data_with_offset n && j == k + offset_of n then b else bytes i j

-- `*write_state &= 0xF0 >> offset`
unfoldable pub clear_bits : ℕ → Data → Data
clear_bits n bytes i j =
    if i == get_data_with_offset n && leb (offset_of n) j && ltb j (4 + offset_of n)
    then false
    else bytes i j
