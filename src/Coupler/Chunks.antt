-- ===== src/Coupler/Chunks.antt =====
-- What one answer to a query leaves in the inputs (PAC/common/uni_bus_coupler_io.cpp).
use ptusa_main.Common.{
  ℕ, zero, suc, ◌+◌, ◌-◌, ◌*◌, ◌/◌, ◌%◌, ◌^◌, ◌≤◌, ◌<◌, ◌≡◌, sym, ap, ◌∙◌, ◌&&◌, ltb, leb,
  if◌then◌else◌, arith,
}
use ptusa_main.Coupler.{Inputs, Buffer}
use ptusa_main.Coupler.Reading.{word_of, read_analog, read_discrete, take_registers}

module _ (ai_types : ℕ → ℕ) (buff : Buffer) where
  -- The word of the register `k` in an answer that has the register `dest` at the place `source`.
  unfoldable pub word_at : ℕ → ℕ → ℕ → ℕ
  word_at dest source k =
      word_of (ai_types k) (buff (source + 2 * (k - dest))) (buff (source + 2 * (k - dest) + 1))

  word_at-next :
      (dest source k : ℕ) → dest < k → word_at (suc dest) (source + 2) k ≡ word_at dest source k
  unfolding word_at
  word_at-next dest source k h =
      let e : source + 2 + 2 * (k - suc dest) ≡ source + 2 * (k - dest) = omega (arith, h) in
      ap (λ s. word_of (ai_types k) (buff s) (buff (s + 1))) e

  word_at-here :
      (dest source k : ℕ)
      → k ≡ dest
      → word_of (ai_types dest) (buff source) (buff (source + 1)) ≡ word_at dest source k
  unfolding word_at
  word_at-here dest source k h =
      let e : source ≡ source + 2 * (k - dest) = omega (arith, h) in
      ap (λ s. word_of (ai_types dest) (buff s) (buff (s + 1))) e
      ∙ ap
          (λ d.
            word_of (ai_types d) (buff (source + 2 * (k - dest)))
              (buff (source + 2 * (k - dest) + 1)))
          (sym h)

  read_analog-at :
      (left dest source k : ℕ) (ai : ℕ → ℕ)
      → read_analog ai_types buff left dest source ai k
        ≡ (if leb dest k && ltb k (dest + left) then word_at dest source k else ai k)
  unfolding read_analog
  read_analog-at zero dest source k ai = ground arith
  read_analog-at (suc left) dest source k ai =
      read_analog-at left (suc dest) (source + 2) k _
      ∙ ground (arith, word_at-next dest source k, word_at-here dest source k)

-- The bit `k` of an answer that has the bits from `dest` on from the byte `source` on.
unfoldable pub bit_of_answer : Buffer → ℕ → ℕ → ℕ → ℕ
bit_of_answer buff dest source k = buff (source + (k - dest) / 8) / 2 ^ ((k - dest) % 8) % 2

bit_of_answer-next :
    (buff : Buffer) (dest source k : ℕ)
    → dest + 8 ≤ k
    → bit_of_answer buff (dest + 8) (suc source) k ≡ bit_of_answer buff dest source k
unfolding bit_of_answer
bit_of_answer-next buff dest source k h =
    let e : suc source + (k - (dest + 8)) / 8 ≡ source + (k - dest) / 8 = omega (arith, h) in
    let f : (k - (dest + 8)) % 8 ≡ (k - dest) % 8 = omega (arith, h) in
    ap (λ s. buff s / 2 ^ ((k - (dest + 8)) % 8) % 2) e
    ∙ ap (λ b. buff (source + (k - dest) / 8) / 2 ^ b % 2) f

bit_of_answer-here :
    (buff : Buffer) (dest source k : ℕ)
    → dest ≤ k
    → k < dest + 8
    → buff source / 2 ^ (k - dest) % 2 ≡ bit_of_answer buff dest source k
unfolding bit_of_answer
bit_of_answer-here buff dest source k h g =
    let e : source ≡ source + (k - dest) / 8 = omega (arith, h, g) in
    let f : k - dest ≡ (k - dest) % 8 = omega (arith, h, g) in
    ap (λ s. buff s / 2 ^ (k - dest) % 2) e ∙ ap (λ b. buff (source + (k - dest) / 8) / 2 ^ b % 2) f

read_discrete-at :
    (buff : Buffer) (left dest source k : ℕ) (di : ℕ → ℕ)
    → read_discrete buff left dest source di k
      ≡ (if leb dest k && ltb k (dest + 8 * left) then bit_of_answer buff dest source k else di k)
unfolding read_discrete
read_discrete-at buff zero dest source k di = ground arith
read_discrete-at buff (suc left) dest source k di =
    read_discrete-at buff left (dest + 8) (suc source) k _
    ∙ ground (arith, bit_of_answer-next buff dest source k, bit_of_answer-here buff dest source k)

-- What an answer gives of the analog input `k` and of the discrete input `k`.
pub ai-take_registers :
    (ai_types : ℕ → ℕ) (buff : Buffer) (start count k : ℕ) (i : Inputs)
    → (take_registers ai_types buff start count i).ai k
      ≡ (if leb start k && ltb k (start + count) then word_at ai_types buff start 0 k else i.ai k)
unfolding take_registers
ai-take_registers ai_types buff start count k i = read_analog-at ai_types buff count start 0 k i.ai

pub di-take_registers :
    (ai_types : ℕ → ℕ) (buff : Buffer) (start count k : ℕ) (i : Inputs)
    → (take_registers ai_types buff start count i).di k ≡ (
        if leb (start * 16) k && ltb k (start * 16 + 8 * (count * 2))
        then bit_of_answer buff (start * 16) 0 k
        else i.di k)
unfolding take_registers
di-take_registers ai_types buff start count k i =
    read_discrete-at buff (count * 2) (start * 16) 0 k i.di
