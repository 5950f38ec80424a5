-- ===== src/Coupler/Ended.antt =====
-- That the poll of a coupler ends (PAC/common/uni_bus_coupler_io.cpp).
use ptusa_main.Common.{
  ℕ, zero, suc, ◌+◌, ◌-◌, ◌*◌, ◌≤◌, ◌<◌, ◌≡◌, refl, ◌⊎◌, inl, inr, true, Option, ltb, Bool-cases,
  ltb→lt, if◌then◌else◌, arith,
}
use ptusa_main.Coupler.{Inputs, Buffer, max_registers, start_address}
use ptusa_main.Coupler.Reading.{
  Answer, read_input_registers, take_registers, count_of, End, read_loop, read_inputs,
}

-- The loop has ended, by its test or at a `break`.
abbrev pub HasEnded : Inputs × End → Type 0
HasEnded r = (r.1 ≡ End.all_read) ⊎ (r.1 ≡ End.broken)

pub count_of-bounds :
    (left : ℕ)
    → 0 < left
    → (0 < count_of left) × (count_of left ≤ left) × (count_of left ≤ max_registers)
unfolding count_of
count_of-bounds left h = ground (arith, h)

pub count_of-fuel :
    (cnt start fuel : ℕ)
    → cnt - start ≤ max_registers * suc fuel
    → cnt - (start + count_of (cnt - start)) ≤ max_registers * fuel
unfolding count_of
count_of-fuel cnt start fuel h = ground (arith, h)

-- A round that gets an answer.
pub read_loop-round :
    (query : ℕ → ℕ → Answer) (ai_types : ℕ → ℕ) (cnt fuel start : ℕ) (i : Inputs) (buff : Buffer)
    → query (start_address + start) (count_of (cnt - start)) ≡ Answer.registers buff
    → read_loop query ai_types cnt (suc fuel) start i ≡ (
        if ltb (start + count_of (cnt - start)) cnt
        then read_loop query ai_types cnt fuel
            (start + count_of (cnt - start))
            (take_registers ai_types buff start (count_of (cnt - start)) i)
        else (take_registers ai_types buff start (count_of (cnt - start)) i, End.all_read))
unfolding read_loop
read_loop-round query ai_types cnt fuel start i buff e = rw (read_loop, e) refl

-- A round ends the loop, unless the next ones are begun.
round-HasEnded :
    (ai_types : ℕ → ℕ) (cnt start count : ℕ) (i : Inputs) (next : Inputs → Inputs × End)
    (a : Answer)
    → ((j : Inputs) → ltb (start + count) cnt ≡ true → HasEnded (next j))
    → HasEnded (elim a [
      | Answer.no_answer ↦ (i, End.broken)
      | Answer.refused ↦ (i, End.broken)
      | Answer.registers buff ↦
          (let rest = next (take_registers ai_types buff start count i) in
            if ltb (start + count) cnt
            then rest
            else (take_registers ai_types buff start count i, End.all_read))
    ])
round-HasEnded ai_types cnt start count i next Answer.no_answer h = inr refl
round-HasEnded ai_types cnt start count i next Answer.refused h = inr refl
round-HasEnded ai_types cnt start count i next (Answer.registers buff) h =
    elim (Bool-cases (ltb (start + count) cnt)) [
      | inl e ↦ rw e (h (take_registers ai_types buff start count i) e)
      | inr e ↦ rw e (inl refl)
    ]

read_loop-HasEnded :
    (query : ℕ → ℕ → Answer) (ai_types : ℕ → ℕ) (cnt fuel start : ℕ) (i : Inputs)
    → start < cnt
    → cnt - start ≤ max_registers * fuel
    → HasEnded (read_loop query ai_types cnt fuel start i)
unfolding read_loop
read_loop-HasEnded query ai_types cnt zero start i b h = absurd (omega (arith, b, h))
read_loop-HasEnded query ai_types cnt (suc fuel) start i b h =
    let count = count_of (cnt - start) in
    round-HasEnded ai_types cnt start count i (read_loop query ai_types cnt fuel (start + count))
      (query (start_address + start) count)
      (λ j e.
        read_loop-HasEnded query ai_types cnt fuel (start + count) j (ltb→lt (start + count) cnt e)
          (count_of-fuel cnt start fuel h))

-- Whatever the coupler answers, a poll ends within n rounds where there are at most 123 n
-- registers: by the test of the loop, or at the first query that fails.
pub read_inputs-HasEnded :
    (e_communicate : Buffer → Option Buffer) (ai_types : ℕ → ℕ) (ai_cnt fuel : ℕ) (i : Inputs)
    → ai_cnt ≤ max_registers * fuel
    → HasEnded (read_inputs e_communicate ai_types ai_cnt fuel i)
unfolding read_inputs
read_inputs-HasEnded e_communicate ai_types ai_cnt fuel i h = elim (Bool-cases (ltb 0 ai_cnt)) [
  | inl e ↦ rw e (
      read_loop-HasEnded (read_input_registers e_communicate) ai_types ai_cnt fuel 0 i
        (ltb→lt 0 ai_cnt e) (omega (arith, h)))
  | inr e ↦ rw e (inl refl)
]
