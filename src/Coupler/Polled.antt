-- ===== src/Coupler/Polled.antt =====
-- What the whole poll of a coupler reads (PAC/common/uni_bus_coupler_io.cpp).
use ptusa_main.Common.{
  ℕ, zero, suc, ◌+◌, ◌-◌, ◌*◌, ◌/◌, ◌%◌, ◌^◌, ◌≤◌, ◌<◌, ◌≡◌, refl, sym, ap, ◌∙◌, inl, inr, true,
  ◌&&◌, Option, some, ltb, ◌==◌, Bool-cases, ltb→lt, if◌then◌else◌, arith,
}
use mathlib.Core.Path.{subst, ap₂}
use ptusa_main.Coupler.{Inputs, Buffer, max_registers, start_address}
use ptusa_main.Coupler.Reading.{
  Answer, answer_of, request, read_input_registers, word_of, take_registers, count_of, End,
  read_loop, read_inputs,
}
use ptusa_main.Coupler.Chunks.{word_at, bit_of_answer, ai-take_registers, di-take_registers}
use ptusa_main.Coupler.Ended.{count_of-bounds, count_of-fuel, read_loop-round}

-- A Modbus device with the input registers `regs`, of an upper and a lower byte: it answers every
-- request of at most 123 of its registers with their bytes.
pub record IsServer (e_communicate : Buffer → Option Buffer) (regs : ℕ → ℕ × ℕ) : Type 0 where
  pub reply : ℕ → ℕ → Buffer
  pub answers :
      (address n : ℕ)
      → 0 < n
      → address + n ≤ 2 ^ 16
      → n ≤ 123
      → e_communicate (request address n) ≡ some (reply address n)
  pub code : (address n : ℕ) → reply address n 7 ≡ 4
  pub size : (address n : ℕ) → n ≤ 123 → reply address n 8 ≡ n * 2
  pub upper : (address n j : ℕ) → j < n → reply address n (9 + 2 * j) ≡ (regs (address + j)).0
  pub lower : (address n j : ℕ) → j < n → reply address n (9 + (2 * j + 1)) ≡ (regs (address + j)).1

-- The bit of a register: the upper byte has the first eight.
unfoldable pub bit_of_register : ℕ × ℕ → ℕ → ℕ
bit_of_register r b = (if ltb b 8 then r.0 else r.1) / 2 ^ (b % 8) % 2

-- The first `n` registers are read into the inputs, and the others are as they were in `old`.
pub record IsReadUpTo (regs : ℕ → ℕ × ℕ) (ai_types : ℕ → ℕ) (old : Inputs) (n : ℕ) (i : Inputs)
    : Type 0 where
  pub ai :
      (k : ℕ)
      → i.ai k ≡ (
          if ltb k n
          then word_of (ai_types k) (regs (start_address + k)).0 (regs (start_address + k)).1
          else old.ai k)
  pub di :
      (k : ℕ)
      → i.di k ≡ (
          if ltb k (n * 16)
          then bit_of_register (regs (start_address + k / 16)) (k % 16)
          else old.di k)

header_right :
    {e_communicate : Buffer → Option Buffer} {regs : ℕ → ℕ × ℕ} (s : IsServer e_communicate regs)
    (address n : ℕ)
    → n ≤ 123
    → (s.reply address n 7 == 4 && s.reply address n 8 == n * 2) ≡ true
header_right s address n g = ground (arith, s.code address n, s.size address n g)

query_of-server :
    (e_communicate : Buffer → Option Buffer) (regs : ℕ → ℕ × ℕ) (s : IsServer e_communicate regs)
    (address n : ℕ)
    → 0 < n
    → address + n ≤ 2 ^ 16
    → n ≤ 123
    → read_input_registers e_communicate address n
      ≡ Answer.registers (λ k. s.reply address n (9 + k))
unfolding read_input_registers answer_of
query_of-server e regs s address n o h g =
    ap (answer_of n) (s.answers address n o h g)
    ∙ ap (λ b. if b then Answer.registers (λ k. s.reply address n (9 + k)) else Answer.refused)
        (header_right s address n g)

module _ (regs : ℕ → ℕ × ℕ) (ai_types : ℕ → ℕ) (old : Inputs) (buff : Buffer) (start n : ℕ)
    (upper : (j : ℕ) → j < n → buff (2 * j) ≡ (regs (start_address + start + j)).0)
    (lower : (j : ℕ) → j < n → buff (2 * j + 1) ≡ (regs (start_address + start + j)).1) where
  word_at-server :
      (k : ℕ)
      → start ≤ k
      → k < start + n
      → word_at ai_types buff start 0 k
        ≡ word_of (ai_types k) (regs (start_address + k)).0 (regs (start_address + k)).1
  unfolding word_at
  word_at-server k h g =
      let e : start_address + start + (k - start) ≡ start_address + k = omega (arith, h) in
      let d : k - start < n = omega (arith, h, g) in
      ap₂ (word_of (ai_types k))
        (ap buff (omega arith) ∙ upper (k - start) d ∙ ap (λ a. (regs a).0) e)
        (ap buff (omega arith) ∙ lower (k - start) d ∙ ap (λ a. (regs a).1) e)

  bit_of_answer-server :
      (k : ℕ)
      → start * 16 ≤ k
      → k < start * 16 + 8 * (n * 2)
      → bit_of_answer buff (start * 16) 0 k
        ≡ bit_of_register (regs (start_address + k / 16)) (k % 16)
  unfolding bit_of_answer bit_of_register
  bit_of_answer-server k h g =
      let j = (k - start * 16) / 16 in
      let d : j < n = omega (arith, h, g) in
      let e : start_address + start + j ≡ start_address + k / 16 = omega (arith, h) in
      let same : (k - start * 16) % 8 ≡ k % 16 % 8 = omega (arith, h) in
      elim (Bool-cases (ltb (k % 16) 8)) [
        | inl c ↦
            (let at : 0 + (k - start * 16) / 8 ≡ 2 * j = ground (arith, c, h) in
              let byte : buff (0 + (k - start * 16) / 8) ≡ (regs (start_address + k / 16)).0 =
                ap buff at ∙ upper j d ∙ ap (λ a. (regs a).0) e in
              rw c (ap₂ (λ x y. x / 2 ^ y % 2) byte same))
        | inr c ↦
            (let at : 0 + (k - start * 16) / 8 ≡ 2 * j + 1 = ground (arith, c, h) in
              let byte : buff (0 + (k - start * 16) / 8) ≡ (regs (start_address + k / 16)).1 =
                ap buff at ∙ lower j d ∙ ap (λ a. (regs a).1) e in
              rw c (ap₂ (λ x y. x / 2 ^ y % 2) byte same))
      ]

  take_registers-IsReadUpTo :
      (i : Inputs)
      → IsReadUpTo regs ai_types old start i
      → IsReadUpTo regs ai_types old (start + n) (take_registers ai_types buff start n i)
  take_registers-IsReadUpTo i r = record {
    ai =
        λ k. ai-take_registers ai_types buff start n k i ∙ ground (arith, word_at-server k, r.ai k);
    di = λ k.
        di-take_registers ai_types buff start n k i
        ∙ ground (arith, bit_of_answer-server k, r.di k);
  }

module _ (regs : ℕ → ℕ × ℕ) (ai_types : ℕ → ℕ) (old : Inputs)
    (e_communicate : Buffer → Option Buffer) (server : IsServer e_communicate regs) (cnt : ℕ)
    (in_space : start_address + cnt ≤ 2 ^ 16) where
  -- All registers are read, and the loop has ended by its test.
  abbrev IsPolled : Inputs × End → Type 0
  IsPolled r = (r.1 ≡ End.all_read) × IsReadUpTo regs ai_types old cnt r.0

  read_loop-IsPolled :
      (fuel start : ℕ) (i : Inputs)
      → start < cnt
      → cnt - start ≤ max_registers * fuel
      → IsReadUpTo regs ai_types old start i
      → IsPolled (read_loop (read_input_registers e_communicate) ai_types cnt fuel start i)
  read_loop-IsPolled zero start i b h r = absurd (omega (arith, b, h))
  read_loop-IsPolled (suc fuel) start i b h r =
      let count = count_of (cnt - start) in
      let c = count_of-bounds (cnt - start) (omega (arith, b)) in
      let buff = (λ (k : ℕ). server.reply (start_address + start) count (9 + k)) in
      let next =
        take_registers-IsReadUpTo regs ai_types old buff start count
          (server.upper (start_address + start) count) (server.lower (start_address + start) count)
          i r in
      subst IsPolled
        (sym (
          read_loop-round (read_input_registers e_communicate) ai_types cnt fuel start i buff (
            query_of-server e_communicate regs server (start_address + start) count c.0
              (omega (arith, c, in_space, b)) c.2)))
        (elim (Bool-cases (ltb (start + count) cnt)) [
          | inl e ↦ rw e (
              read_loop-IsPolled fuel (start + count) (take_registers ai_types buff start count i)
                (ltb→lt (start + count) cnt e) (count_of-fuel cnt start fuel h) next)
          | inr e ↦
              (let whole : start + count ≡ cnt = ground (arith, e, c, b) in
                rw e (
                  refl,
                  subst
                      (λ m.
                        IsReadUpTo regs ai_types old m (take_registers ai_types buff start count i))
                      whole next,
                ))
        ])

-- Where the coupler is a Modbus device that answers requests of 1 to 123 of its input registers,
-- and the registers from 8000 on that are polled have addresses below 2 ^ 16, a poll with n rounds
-- for at most 123 n registers reads all of them: each analog input is the word of its register, in
-- the order of bytes of its module, each discrete input the bit of its register, and the inputs
-- beyond them are as they were.
pub read_inputs-IsPolled :
    (regs : ℕ → ℕ × ℕ) (ai_types : ℕ → ℕ) (old : Inputs) (e_communicate : Buffer → Option Buffer)
    (ai_cnt fuel : ℕ)
    → IsServer e_communicate regs
    → start_address + ai_cnt ≤ 2 ^ 16
    → ai_cnt ≤ max_registers * fuel
    → ((read_inputs e_communicate ai_types ai_cnt fuel old).1 ≡ End.all_read)
      × IsReadUpTo regs ai_types old ai_cnt (read_inputs e_communicate ai_types ai_cnt fuel old).0
unfolding read_inputs
read_inputs-IsPolled regs ai_types old e_communicate ai_cnt fuel s b h =
    elim (Bool-cases (ltb 0 ai_cnt)) [
      | inl e ↦ rw e (
          read_loop-IsPolled regs ai_types old e_communicate s ai_cnt b fuel 0 old
            (ltb→lt 0 ai_cnt e) (omega (arith, h))
            (record { ai = λ k. ground arith; di = λ k. ground arith }))
      | inr e ↦
          (let none_left : ai_cnt ≡ 0 = ground (arith, e) in
            rw e (
              refl,
              record { ai = λ k. ground (arith, none_left); di = λ k. ground (arith, none_left) },
            ))
    ]
