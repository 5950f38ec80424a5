-- ===== src/Tests/Registers.antt =====
-- The theorems on registers at concrete inputs: texts and bits of the Modbus service, and a coupler
-- with 130 registers.
use ptusa_main.Common.{
  ℕ, ◌≡◌, ◌+◌, ◌-◌, ◌*◌, ◌/◌, ◌%◌, ◌<◌, ◌≤◌, ◌^◌, refl, ap, ◌∙◌, true, List, [], ◌∷◌, Option, some,
  ltb, ◌==◌, if◌then◌else◌, arith,
}
use ptusa_main.Modbus.Packing.{force_bit}
use ptusa_main.Modbus.Packed.{bit, bit_at, bit_at-force_bit}
use ptusa_main.Modbus.Texts.{cp1251_to_unicode, unicode_to_cp1251}
use ptusa_main.Modbus.Reread.{AllChars, Holds, is_char, unicode_to_cp1251-cp1251_to_unicode}
use ptusa_main.Coupler.{Inputs, Buffer}
use ptusa_main.Coupler.Reading.{request, read_inputs, End}
use ptusa_main.Coupler.Ended.{HasEnded, read_inputs-HasEnded}
use ptusa_main.Coupler.Polled.{IsServer, IsReadUpTo, read_inputs-IsPolled}

abbrev zeros : Buffer
zeros k = 0

-- "A" and a Cyrillic letter.
abbrev text : List ℕ
text = 65 ∷ 192 ∷ []

text-AllChars : AllChars text
unfolding is_char
text-AllChars = AllChars.more_chars refl (AllChars.more_chars refl AllChars.no_chars)

unicode_to_cp1251-cp1251_to_unicode_example :
    Holds (unicode_to_cp1251 3 0 (cp1251_to_unicode 0 text zeros) zeros) 0 text
unicode_to_cp1251-cp1251_to_unicode_example =
    unicode_to_cp1251-cp1251_to_unicode text zeros zeros text-AllChars

bit_at-force_bit_example : bit_at (force_bit 11 true zeros) 11 ≡ 1
unfolding bit
bit_at-force_bit_example = bit_at-force_bit 11 11 true zeros (omega arith)

abbrev regs : ℕ → ℕ × ℕ
regs a = (a / 256, a % 256)

abbrev reply : ℕ → ℕ → Buffer
reply address n k =
    if k == 7
    then 4
    else if k == 8
    then n * 2
    else if (k - 9) % 2 == 0
    then (regs (address + (k - 9) / 2)).0
    else (regs (address + (k - 9) / 2)).1

-- A device that takes the address and the number out of the request.
abbrev device : Buffer → Option Buffer
device r = some (reply (r 8 * 256 + r 9) (r 10 * 256 + r 11))

address_of : (a n : ℕ) → a < 2 ^ 16 → request a n 8 * 256 + request a n 9 ≡ a
unfolding request
address_of a n h = omega (arith, h)

number_of : (a n : ℕ) → n ≤ 123 → request a n 10 * 256 + request a n 11 ≡ n
unfolding request
number_of a n h = omega (arith, h)

device-IsServer : IsServer device regs
device-IsServer = record {
  reply = reply;
  answers = λ a n o h g.
      ap (λ b. some (reply b (request a n 10 * 256 + request a n 11)))
        (address_of a n (omega (arith, o, h)))
      ∙ ap (λ m. some (reply a m)) (number_of a n g);
  code = λ a n. refl;
  size = λ a n g. refl;
  upper = λ a n j h. ground arith;
  lower = λ a n j h. ground arith;
}

abbrev inputs : Inputs
inputs = record { ai = zeros; di = zeros }

abbrev types : ℕ → ℕ
types k = if ltb k 4 then 1027843 else 0

read_inputs-HasEnded_example : HasEnded (read_inputs device types 130 2 inputs)
read_inputs-HasEnded_example = read_inputs-HasEnded device types 130 2 inputs (omega arith)

read_inputs-IsPolled_example :
    ((read_inputs device types 130 2 inputs).1 ≡ End.all_read)
    × IsReadUpTo regs types inputs 130 (read_inputs device types 130 2 inputs).0
read_inputs-IsPolled_example =
    read_inputs-IsPolled regs types inputs device 130 2 device-IsServer (omega arith) (omega arith)
