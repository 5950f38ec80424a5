-- ===== src/Modbus/Packing.antt =====
-- Bits, numbers and texts in registers: ForceBit, and the functions Pack and Unpack (PAC/common/modbus_serv.cpp).
use ptusa_main.Common.{
  ℕ, suc, ◌+◌, ◌-◌, ◌*◌, ◌/◌, ◌%◌, ◌^◌, Bool, true, false, List, [], ◌∷◌, ◌==◌, if◌then◌else◌,
}
use ptusa_main.Modbus.{Buffer, put_byte}

-- The byte `n` of a number, the lowest first.
unfoldable pub byte_of : ℕ → ℕ → ℕ
byte_of v n = v / 256 ^ n % 256

-- PackInt16 and PackWord.
unfoldable pub pack_word : ℕ → Buffer → Buffer
pack_word v buf = put_byte 1 (byte_of v 0) (put_byte 0 (byte_of v 1) buf)

-- UnpackInt16, as an unsigned word, and UnpackWord.
unfoldable pub unpack_word : Buffer → ℕ
unpack_word buf = buf 1 + 256 * buf 0

-- PackLong, and PackFloat on the bits of the number.
unfoldable pub pack_long : ℕ → Buffer → Buffer
pack_long v buf =
    put_byte 3 (byte_of v 2)
      (put_byte 2 (byte_of v 3) (put_byte 1 (byte_of v 0) (put_byte 0 (byte_of v 1) buf)))

-- UnpackLong, and UnpackFloat.
unfoldable pub unpack_long : Buffer → ℕ
unpack_long buf = buf 1 + 256 * buf 0 + 65536 * buf 3 + 16777216 * buf 2

-- The loop of PackString from the character with the number `i` on.
unfoldable pub pack_chars : ℕ → List ℕ → Buffer → Buffer × ℕ
pack_chars i [] buf = if i % 2 == 0 then (buf, i) else (put_byte (i - 1) 32 buf, suc i)
pack_chars i (c ∷ cs) buf =
    pack_chars (suc i) cs (if i % 2 == 0 then put_byte (i + 1) c buf else put_byte (i - 1) c buf)

-- PackString, with its result.
unfoldable pub pack_string : List ℕ → Buffer → Buffer × ℕ
pack_string s buf = pack_chars 0 s buf

-- The bit of a byte.
unfoldable pub byte_bit : ℕ → ℕ → ℕ
byte_bit b n = b / 2 ^ n % 2

-- `b | ( 1 << n )` and `b & ( 0xFF ^ ( 1 << n ) )` on a byte.
unfoldable pub set_bit : Bool → ℕ → ℕ → ℕ
set_bit true n b = if byte_bit b n == 0 then b + 2 ^ n else b
set_bit false n b = if byte_bit b n == 0 then b else b - 2 ^ n

unfoldable pub force_bit : ℕ → Bool → Buffer → Buffer
force_bit bit to_set buf = put_byte (bit / 8) (set_bit to_set (bit % 8) (buf (bit / 8))) buf
