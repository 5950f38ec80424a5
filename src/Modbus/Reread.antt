-- ===== src/Modbus/Reread.antt =====
-- That UnicodetoCP1251 reads what CP1251toUnicode writes (PAC/common/modbus_serv.cpp).
use ptusa_main.Common.{
  ℕ, zero, suc, ◌+◌, ◌*◌, ◌<◌, ◌≡◌, refl, sym, ap, ◌∙◌, inl, inr, Bool, true, false, ◌&&◌, ◌||◌,
  not, List, [], ◌∷◌, Option, none, some, length, ltb, ◌==◌, ==_iff, Bool-cases, if◌then◌else◌,
  arith,
}
use mathlib.Core.Path.{subst, ap₂}
use ptusa_main.Modbus.{Buffer, put_byte}
use ptusa_main.Modbus.Texts.{
  u_table, bytes_of, cp1251_to_unicode, find_char, put_found, put_char, unicode_to_cp1251,
}

put_byte-at : (at v : ℕ) (buf : Buffer) → v < 256 → put_byte at v buf at ≡ v
unfolding put_byte
put_byte-at at v buf h = ground (arith, h)

put_byte-other : (at v k : ℕ) (buf : Buffer) → (k == at) ≡ false → put_byte at v buf k ≡ buf k
unfolding put_byte
put_byte-other at v k buf h = rw h refl

unfoldable pub all_below : (ℕ → Bool) → ℕ → Bool
all_below p zero = true
all_below p (suc n) = p n && all_below p n

pub all_below-at : (p : ℕ → Bool) (n j : ℕ) → all_below p n ≡ true → j < n → p j ≡ true
unfolding all_below
all_below-at p zero j h b = absurd (omega (arith, b))
all_below-at p (suc n) j h b = elim (Bool-cases (j == n)) [
  | inl e ↦ ap p ((==_iff j n).0 e) ∙ ground (arith, h)
  | inr e ↦ all_below-at p n j (ground (arith, h)) (ground (arith, b, e))
]

-- `put_char` writes the character again from its two bytes, which are not both 0.
unfoldable pub is_same_char : ℕ → Option ℕ → Bool
is_same_char c none = false
is_same_char c (some j) = 128 + j == c

unfoldable pub is_exchanged : ℕ → Bool
is_exchanged c =
    let b = bytes_of c in
    ltb b.0 256
    && ltb b.1 256
    && ltb 0 (b.0 + b.1)
    && (if b.0 == 0 && ltb b.1 128 then b.1 == c else is_same_char c (find_char b.0 b.1 u_table 0))

-- The characters but 0 and 152, whose entry in the table is of two zeros.
unfoldable pub is_char : ℕ → Bool
is_char c = ltb 0 c && ltb c 256 && (ltb c 152 || ltb 152 c)

unfoldable pub is_kept : ℕ → Bool
is_kept c = not (is_char c) || is_exchanged c

table_kept : all_below is_kept 256 ≡ true
unfolding all_below is_kept is_char is_exchanged bytes_of is_same_char find_char
table_kept = refl

kept-is_char : (c : ℕ) → is_char c ≡ true → is_kept c ≡ true → is_exchanged c ≡ true
unfolding is_kept
kept-is_char c h k = ground (arith, h, k)

is_char-lt : (c : ℕ) → is_char c ≡ true → c < 256
unfolding is_char
is_char-lt c h = ground (arith, h)

exchanged : (c : ℕ) → is_char c ≡ true → is_exchanged c ≡ true
exchanged c h = kept-is_char c h (all_below-at is_kept 256 c table_kept (is_char-lt c h))

-- The text stands in the registers from the one with the number `i` on.
data Spells (buf : Buffer) : ℕ → List ℕ → Type 0 where
  spells_end : {i : ℕ} → buf (2 * i) ≡ 0 → buf (2 * i + 1) ≡ 0 → Spells buf i []
  spells :
      {i c : ℕ} {cs : List ℕ}
      → is_char c ≡ true
      → buf (2 * i) ≡ (bytes_of c).0
      → buf (2 * i + 1) ≡ (bytes_of c).1
      → Spells buf (suc i) cs
      → Spells buf i (c ∷ cs)

-- The string stands in the output from the character with the number `i` on.
pub data Holds (out : Buffer) : ℕ → List ℕ → Type 0 where
  holds_end : {i : ℕ} → out i ≡ 0 → Holds out i []
  holds : {i c : ℕ} {cs : List ℕ} → out i ≡ c → Holds out (suc i) cs → Holds out i (c ∷ cs)

-- Of characters that the page has.
pub data AllChars : List ℕ → Type 0 where
  no_chars : AllChars []
  more_chars : {c : ℕ} {cs : List ℕ} → is_char c ≡ true → AllChars cs → AllChars (c ∷ cs)

put_found-before : (i k : ℕ) (j : Option ℕ) (out : Buffer) → k < i → put_found i j out k ≡ out k
unfolding put_found put_byte
put_found-before i k none out h = refl
put_found-before i k (some j) out h = ground (arith, h)

put_char-before :
    (i k upper lower : ℕ) (out : Buffer) → k < i → put_char i upper lower out k ≡ out k
unfolding put_char put_byte
put_char-before i k upper lower out h =
    ground (arith, h, put_found-before i k (find_char upper lower u_table 0) out h)

-- The loop does not touch what stands before.
cp1251_to_unicode-before :
    (cs : List ℕ) (i k : ℕ) (buf : Buffer) → k < 2 * i → cp1251_to_unicode i cs buf k ≡ buf k
unfolding cp1251_to_unicode put_byte
cp1251_to_unicode-before [] i k buf h = ground (arith, h)
cp1251_to_unicode-before (c ∷ cs) i k buf h =
    cp1251_to_unicode-before cs (suc i) k _ (omega (arith, h)) ∙ ground (arith, h)

bytes_lt : (c : ℕ) → is_exchanged c ≡ true → ((bytes_of c).0 < 256) × ((bytes_of c).1 < 256)
unfolding is_exchanged
bytes_lt c h = ground (arith, h)

cp1251_to_unicode-Spells :
    (cs : List ℕ) (i : ℕ) (buf : Buffer) → AllChars cs → Spells (cp1251_to_unicode i cs buf) i cs
unfolding cp1251_to_unicode put_byte
cp1251_to_unicode-Spells [] i buf a = Spells.spells_end (ground arith) (ground arith)
cp1251_to_unicode-Spells (c ∷ cs) i buf (AllChars.more_chars h a) =
    let b = bytes_lt c (exchanged c h) in
    Spells.spells h
      (cp1251_to_unicode-before cs (suc i) (2 * i) _ (omega arith) ∙ ground (arith, b))
      (cp1251_to_unicode-before cs (suc i) (2 * i + 1) _ (omega arith) ∙ ground (arith, b))
      (cp1251_to_unicode-Spells cs (suc i) _ a)

unicode_to_cp1251-before :
    (left i k : ℕ) (buf out : Buffer) → k < i → unicode_to_cp1251 left i buf out k ≡ out k
unfolding unicode_to_cp1251 put_byte
unicode_to_cp1251-before zero i k buf out h = refl
unicode_to_cp1251-before (suc left) i k buf out h =
    let rest =
      unicode_to_cp1251-before left (suc i) k buf (put_char i (buf (2 * i)) (buf (2 * i + 1)) out)
        (omega (arith, h)) in
    ground (arith, h, rest, put_char-before i k (buf (2 * i)) (buf (2 * i + 1)) out h)

put_found-same :
    (i c : ℕ) (j : Option ℕ) (out : Buffer)
    → is_same_char c j ≡ true
    → c < 256
    → put_found i j out i ≡ c
unfolding put_found is_same_char put_byte
put_found-same i c none out h b = ground (arith, h)
put_found-same i c (some j) out h b = ground (arith, h, b)

put_char-same :
    (i c : ℕ) (out : Buffer)
    → c < 256
    → is_exchanged c ≡ true
    → put_char i (bytes_of c).0 (bytes_of c).1 out i ≡ c
unfolding put_char is_exchanged put_byte
put_char-same i c out b h =
    ground (arith, h, b, put_found-same i c (find_char (bytes_of c).0 (bytes_of c).1 u_table 0) out)

not_both_zero :
    (c : ℕ) → is_exchanged c ≡ true → ((bytes_of c).0 == 0 && (bytes_of c).1 == 0) ≡ false
unfolding is_exchanged
not_both_zero c h = ground (arith, h)

not_last :
    (n c : ℕ)
    → is_exchanged c ≡ true
    → (suc n == 0 || (bytes_of c).0 == 0 && (bytes_of c).1 == 0) ≡ false
not_last n c x = ground (arith, not_both_zero c x)

-- A round on a character that is not the last one that the output has room for.
unicode_to_cp1251-round :
    (n i c : ℕ) (buf out : Buffer)
    → buf (2 * i) ≡ (bytes_of c).0
    → buf (2 * i + 1) ≡ (bytes_of c).1
    → is_exchanged c ≡ true
    → unicode_to_cp1251 (suc (suc n)) i buf out
      ≡ unicode_to_cp1251 (suc n) (suc i) buf (put_char i (bytes_of c).0 (bytes_of c).1 out)
unfolding unicode_to_cp1251
unicode_to_cp1251-round n i c buf out u l x =
    ap
      (λ b.
        if suc n == 0 || b.0 == 0 && b.1 == 0
        then put_byte i 0 out
        else unicode_to_cp1251 (suc n) (suc i) buf (put_char i b.0 b.1 out))
      (pair u l)
    ∙ ap
        (λ b.
          if b
          then put_byte i 0 out
          else unicode_to_cp1251 (suc n) (suc i) buf (put_char i (bytes_of c).0 (bytes_of c).1 out))
        (not_last n c x)
  where
    pair : {a b c d : ℕ} → a ≡ c → b ≡ d → Path (ℕ × ℕ) (a, b) (c, d)
    pair e f = ap₂ (λ x y. (x, y)) e f

unicode_to_cp1251-Holds :
    (cs : List ℕ) (i : ℕ) (buf out : Buffer)
    → Spells buf i cs
    → Holds (unicode_to_cp1251 (suc (length cs)) i buf out) i cs
unfolding unicode_to_cp1251
unicode_to_cp1251-Holds [] i buf out (Spells.spells_end u l) =
    Holds.holds_end (put_byte-at i 0 out (omega arith))
unicode_to_cp1251-Holds (c ∷ cs) i buf out (Spells.spells h u l s) =
    let x = exchanged c h in
    let next = put_char i (bytes_of c).0 (bytes_of c).1 out in
    subst (λ o. Holds o i (c ∷ cs)) (sym (unicode_to_cp1251-round (length cs) i c buf out u l x))
      (Holds.holds
        (unicode_to_cp1251-before (suc (length cs)) (suc i) i buf next (omega arith)
          ∙ put_char-same i c out (is_char-lt c h) x)
        (unicode_to_cp1251-Holds cs (suc i) buf next s))

-- A text of the characters 1 to 255 without 152, that CP1251toUnicode lays out in registers, is
-- given again, with its final 0, by UnicodetoCP1251 where the length that it is told is one more
-- than that of the text.
pub unicode_to_cp1251-cp1251_to_unicode :
    (s : List ℕ) (buf out : Buffer)
    → AllChars s
    → Holds (unicode_to_cp1251 (suc (length s)) 0 (cp1251_to_unicode 0 s buf) out) 0 s
unicode_to_cp1251-cp1251_to_unicode s buf out a =
    unicode_to_cp1251-Holds s 0 (cp1251_to_unicode 0 s buf) out (cp1251_to_unicode-Spells s 0 buf a)
