-- ===== src/Modbus/Texts.antt =====
-- Texts in the code page 1251 and in registers of two bytes: CP1251toUnicode and UnicodetoCP1251
-- (PAC/common/modbus_serv.cpp). The buffers are taken to be long enough.
use ptusa_main.Common.{
  ℕ, zero, suc, ◌+◌, ◌-◌, ◌*◌, ◌&&◌, ◌||◌, List, [], ◌∷◌, Option, none, some, get_or, ltb, ◌==◌,
  if◌then◌else◌,
}
use ptusa_main.Modbus.{Buffer, put_byte}

-- UTable: the upper and the lower byte of the characters from 128 on.
abbrev pub u_table : List (ℕ × ℕ)
u_table =
    (4, 2)
    ∷ (4, 3)
    ∷ (32, 26)
    ∷ (4, 83)
    ∷ (32, 30)
    ∷ (32, 38)
    ∷ (32, 32)
    ∷ (32, 33)
    ∷ (32, 172)
    ∷ (32, 48)
    ∷ (4, 9)
    ∷ (32, 57)
    ∷ (4, 10)
    ∷ (4, 12)
    ∷ (4, 11)
    ∷ (4, 15)
    ∷ (4, 82)
    ∷ (32, 24)
    ∷ (32, 25)
    ∷ (32, 28)
    ∷ (32, 29)
    ∷ (32, 34)
    ∷ (32, 19)
    ∷ (32, 20)
    ∷ (0, 0)
    ∷ (33, 34)
    ∷ (4, 89)
    ∷ (32, 58)
    ∷ (4, 90)
    ∷ (4, 92)
    ∷ (4, 91)
    ∷ (4, 95)
    ∷ (0, 160)
    ∷ (4, 14)
    ∷ (4, 94)
    ∷ (4, 8)
    ∷ (0, 164)
    ∷ (4, 144)
    ∷ (0, 166)
    ∷ (0, 167)
    ∷ (4, 1)
    ∷ (0, 169)
    ∷ (4, 4)
    ∷ (0, 171)
    ∷ (0, 172)
    ∷ (0, 173)
    ∷ (0, 174)
    ∷ (4, 7)
    ∷ (0, 176)
    ∷ (0, 177)
    ∷ (4, 6)
    ∷ (4, 86)
    ∷ (4, 145)
    ∷ (0, 181)
    ∷ (0, 182)
    ∷ (0, 183)
    ∷ (4, 81)
    ∷ (33, 22)
    ∷ (4, 84)
    ∷ (0, 187)
    ∷ (4, 88)
    ∷ (4, 5)
    ∷ (4, 85)
    ∷ (4, 87)
    ∷ (4, 16)
    ∷ (4, 17)
    ∷ (4, 18)
    ∷ (4, 19)
    ∷ (4, 20)
    ∷ (4, 21)
    ∷ (4, 22)
    ∷ (4, 23)
    ∷ (4, 24)
    ∷ (4, 25)
    ∷ (4, 26)
    ∷ (4, 27)
    ∷ (4, 28)
    ∷ (4, 29)
    ∷ (4, 30)
    ∷ (4, 31)
    ∷ (4, 32)
    ∷ (4, 33)
    ∷ (4, 34)
    ∷ (4, 35)
    ∷ (4, 36)
    ∷ (4, 37)
    ∷ (4, 38)
    ∷ (4, 39)
    ∷ (4, 40)
    ∷ (4, 41)
    ∷ (4, 42)
    ∷ (4, 43)
    ∷ (4, 44)
    ∷ (4, 45)
    ∷ (4, 46)
    ∷ (4, 47)
    ∷ (4, 48)
    ∷ (4, 49)
    ∷ (4, 50)
    ∷ (4, 51)
    ∷ (4, 52)
    ∷ (4, 53)
    ∷ (4, 54)
    ∷ (4, 55)
    ∷ (4, 56)
    ∷ (4, 57)
    ∷ (4, 58)
    ∷ (4, 59)
    ∷ (4, 60)
    ∷ (4, 61)
    ∷ (4, 62)
    ∷ (4, 63)
    ∷ (4, 64)
    ∷ (4, 65)
    ∷ (4, 66)
    ∷ (4, 67)
    ∷ (4, 68)
    ∷ (4, 69)
    ∷ (4, 70)
    ∷ (4, 71)
    ∷ (4, 72)
    ∷ (4, 73)
    ∷ (4, 74)
    ∷ (4, 75)
    ∷ (4, 76)
    ∷ (4, 77)
    ∷ (4, 78)
    ∷ (4, 79)
    ∷ []

-- Both bytes of a character.
unfoldable pub bytes_of : ℕ → ℕ × ℕ
bytes_of c = if ltb c 128 then (0, c) else get_or u_table (c - 128) (0, 0)

-- The loop of CP1251toUnicode from the character with the number `i` on, with the final 0.
unfoldable pub cp1251_to_unicode : ℕ → List ℕ → Buffer → Buffer
cp1251_to_unicode i [] buf = put_byte (i * 2 + 1) 0 (put_byte (i * 2) 0 buf)
cp1251_to_unicode i (c ∷ cs) buf =
    cp1251_to_unicode (suc i) cs
      (put_byte (i * 2 + 1) (bytes_of c).1 (put_byte (i * 2) (bytes_of c).0 buf))

-- The search in UTable from the entry with the number `j` on.
unfoldable pub find_char : ℕ → ℕ → List (ℕ × ℕ) → ℕ → Option ℕ
find_char upper lower [] j = none
find_char upper lower (e ∷ es) j =
    let rest = find_char upper lower es (suc j) in
    if e.0 == upper && e.1 == lower then some j else rest

-- `Output[ i ] = 128 + j` where an entry is found.
unfoldable pub put_found : ℕ → Option ℕ → Buffer → Buffer
put_found i none out = out
put_found i (some j) out = put_byte i (128 + j) out

unfoldable pub put_char : ℕ → ℕ → ℕ → Buffer → Buffer
put_char i upper lower out =
    if upper == 0 && ltb lower 128
    then put_byte i lower out
    else put_found i (find_char upper lower u_table 0) out

-- The loop of UnicodetoCP1251 from the character with the number `i` on, `left` of them to go.
unfoldable pub unicode_to_cp1251 : ℕ → ℕ → Buffer → Buffer → Buffer
unicode_to_cp1251 zero i buf out = out
unicode_to_cp1251 (suc left) i buf out =
    let upper = buf (2 * i) in
    let lower = buf (2 * i + 1) in
    let rest = unicode_to_cp1251 left (suc i) buf (put_char i upper lower out) in
    if left == 0 || upper == 0 && lower == 0 then put_byte i 0 out else rest
