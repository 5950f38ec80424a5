-- ===== src/Modbus/Packed.antt =====
-- That the functions Unpack read what the functions Pack write, and what ForceBit does to a bit
-- (PAC/common/modbus_serv.cpp).
use ptusa_main.Common.{
  ℕ, ◌/◌, ◌%◌, ◌^◌, ◌<◌, ◌≡◌, refl, sym, ap, inl, inr, Bool-cases, ==_iff, ◌&&◌, Bool, true, false,
  ltb, ◌==◌, if◌then◌else◌, arith,
}
use mathlib.Core.Bool.{false≢true}
use ptusa_main.Modbus.{Buffer, put_byte}
use ptusa_main.Modbus.Reread.{all_below, all_below-at}
use ptusa_main.Modbus.Packing.{
  byte_of, byte_bit, set_bit, force_bit, pack_word, unpack_word, pack_long, unpack_long,
}

-- A number that is packed is unpacked again, to 16 and to 32 bits.
pub unpack-pack :
    (v : ℕ) (buf : Buffer)
    → (unpack_word (pack_word v buf) ≡ v % 2 ^ 16) × (unpack_long (pack_long v buf) ≡ v % 2 ^ 32)
unfolding unpack_word pack_word unpack_long pack_long byte_of put_byte
unpack-pack v buf = (omega arith, omega arith)

-- The bit that a flag stands for.
unfoldable pub bit : Bool → ℕ
bit true = 1
bit false = 0

and_left : (a b : Bool) → a && b ≡ true → a ≡ true
and_left true b h = refl
and_left false b h = h

and_right : (a b : Bool) → a && b ≡ true → b ≡ true
and_right true b h = h
and_right false b h = absurd (false≢true h)

-- Setting the bit `n` of `b` does to the bit `k` what it should.
unfoldable pub sets : Bool → ℕ → ℕ → ℕ → Bool
sets v b n k = byte_bit (set_bit v n b) k == (if k == n then bit v else byte_bit b k)

unfoldable pub fits_byte : Bool → ℕ → ℕ → Bool
fits_byte v b n = ltb (set_bit v n b) 256 && all_below (sets v b n) 8

all_set :
    all_below (λ b. all_below (fits_byte true b) 8 && all_below (fits_byte false b) 8) 256 ≡ true
unfolding all_below fits_byte sets byte_bit set_bit bit
all_set = refl

fits : (v : Bool) (b n : ℕ) → b < 256 → n < 8 → fits_byte v b n ≡ true
fits true b n h g =
    all_below-at (fits_byte true b) 8 n
      (and_left (all_below (fits_byte true b) 8) (all_below (fits_byte false b) 8)
        (all_below-at _ 256 b all_set h))
      g
fits false b n h g =
    all_below-at (fits_byte false b) 8 n
      (and_right (all_below (fits_byte true b) 8) (all_below (fits_byte false b) 8)
        (all_below-at _ 256 b all_set h))
      g

fits_byte-lt : (v : Bool) (b n : ℕ) → fits_byte v b n ≡ true → set_bit v n b < 256
unfolding fits_byte
fits_byte-lt v b n h = ground (arith, h)

fits_byte-sets :
    (v : Bool) (b n k : ℕ)
    → fits_byte v b n ≡ true
    → k < 8
    → byte_bit (set_bit v n b) k ≡ (if k == n then bit v else byte_bit b k)
unfolding fits_byte sets
fits_byte-sets v b n k h g =
    (==_iff (byte_bit (set_bit v n b) k) (if k == n then bit v else byte_bit b k)).0 (
      all_below-at (sets v b n) 8 k
        (and_right (ltb (set_bit v n b) 256) (all_below (sets v b n) 8) h) g)

-- The bit `k` of a buffer.
unfoldable pub bit_at : Buffer → ℕ → ℕ
bit_at buf k = byte_bit (buf (k / 8)) (k % 8)

-- ForceBit sets the bit that it names to the value given and leaves every other bit of the buffer
-- as it was, where the byte of this bit is a byte.
pub bit_at-force_bit :
    (n k : ℕ) (v : Bool) (buf : Buffer)
    → buf (n / 8) < 256
    → bit_at (force_bit n v buf) k ≡ (if k == n then bit v else bit_at buf k)
unfolding bit_at force_bit put_byte
bit_at-force_bit n k v buf h =
    let b = buf (n / 8) in
    let f = fits v b (n % 8) h (omega arith) in
    let new = fits_byte-sets v b (n % 8) (k % 8) f (omega arith) in
    let whole : set_bit v (n % 8) b % 256 ≡ set_bit v (n % 8) b =
      omega (arith, fits_byte-lt v b (n % 8) f) in
    elim (Bool-cases (k / 8 == n / 8)) [
      | inl e ↦
          (let here : byte_bit b (k % 8) ≡ byte_bit (buf (k / 8)) (k % 8) =
              ap (λ j. byte_bit (buf j) (k % 8)) (sym ((==_iff (k / 8) (n / 8)).0 e)) in
            rw (e, whole, new) (ground (arith, e, here)))
      | inr e ↦ rw e (ground (arith, e))
    ]
