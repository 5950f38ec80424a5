-- ===== src/Coupler/Reading.antt =====
-- The request and its answer, and the loops over the registers
-- (PAC/common/uni_bus_coupler_io.cpp).
use ptusa_main.Common.{
  ℕ, zero, suc, ◌+◌, ◌-◌, ◌*◌, ◌/◌, ◌%◌, ◌^◌, Bool, ◌&&◌, ◌||◌, Option, none, some, ltb, leb, ◌==◌,
  if◌then◌else◌,
}
use ptusa_main.Coupler.{Inputs, Buffer, max_registers, start_address}

-- The twelve bytes of the request to read `quantity` input registers from `address` on, with the
-- station 0.
unfoldable pub request : ℕ → ℕ → Buffer
request address quantity k =
    if ltb k 2
    then 115
    else if k == 5
    then 6
    else if k == 7
    then 4
    else if k == 8
    then address % 2 ^ 16 / 256
    else if k == 9
    then address % 256
    else if k == 10
    then quantity % 2 ^ 16 / 256
    else if k == 11
    then quantity % 256
    else 0

-- The result of read_input_registers: -1, 0, or 1 with the bytes that `resultbuff` points to.
pub data Answer : Type 0 where
  no_answer refused : Answer
  registers : Buffer → Answer

-- What is made of the buffer that e_communicate leaves, none where it fails.
unfoldable pub answer_of : ℕ → Option Buffer → Answer
answer_of quantity none = no_answer
answer_of quantity (some buff) =
    if buff 7 == 4 && buff 8 == quantity * 2 then registers (λ k. buff (9 + k)) else refused

unfoldable pub read_input_registers : (Buffer → Option Buffer) → ℕ → ℕ → Answer
read_input_registers e_communicate address quantity =
    answer_of quantity (e_communicate (request address quantity))

-- The modules whose words come with the lower byte first: AXL F IOL8 and AXL SE IOL4.
unfoldable pub is_io_link : ℕ → Bool
is_io_link ty = ty == 1027843 || ty == 1088132

unfoldable pub word_of : ℕ → ℕ → ℕ → ℕ
word_of ty first second = if is_io_link ty then first + 256 * second else 256 * first + second

-- The loop over `left` analog inputs from `dest` on, with the place in the answer.
unfoldable pub read_analog : (ℕ → ℕ) → Buffer → ℕ → ℕ → ℕ → (ℕ → ℕ) → ℕ → ℕ
read_analog ai_types buff zero dest source ai = ai
read_analog ai_types buff (suc left) dest source ai =
    read_analog ai_types buff left (suc dest) (source + 2)
      (λ k. if k == dest then word_of (ai_types dest) (buff source) (buff (source + 1)) else ai k)

-- `( resultbuff[ index_source ] >> k ) & 1` for the bits of `left` bytes, from the bit `dest` on.
unfoldable pub read_discrete : Buffer → ℕ → ℕ → ℕ → (ℕ → ℕ) → ℕ → ℕ
read_discrete buff zero dest source di = di
read_discrete buff (suc left) dest source di =
    read_discrete buff left (dest + 8) (suc source)
      (λ k. if leb dest k && ltb k (dest + 8) then buff source / 2 ^ (k - dest) % 2 else di k)

-- What one answer to the query of `count` registers from `start` on changes.
unfoldable pub take_registers : (ℕ → ℕ) → Buffer → ℕ → ℕ → Inputs → Inputs
take_registers ai_types buff start count i = record {
  ai = read_analog ai_types buff count start 0 i.ai;
  di = read_discrete buff (count * 2) (start * 16) 0 i.di;
}

-- `registers_count` for what is left.
unfoldable pub count_of : ℕ → ℕ
count_of left = if ltb max_registers left then max_registers else left

-- How the loop ends: by its test, at a `break`, or, on fuel, not at all.
pub data End : Type 0 where
  all_read broken out_of_fuel : End

-- The do-while loop, from `start_register` on.
unfoldable pub read_loop : (ℕ → ℕ → Answer) → (ℕ → ℕ) → ℕ → ℕ → ℕ → Inputs → Inputs × End
read_loop query ai_types ai_cnt zero start i = (i, out_of_fuel)
read_loop query ai_types ai_cnt (suc fuel) start i =
    let count = count_of (ai_cnt - start) in
    elim (query (start_address + start) count) [
      | no_answer ↦ (i, broken)
      | refused ↦ (i, broken)
      | registers buff ↦
          (let next = take_registers ai_types buff start count i in
            let rest = read_loop query ai_types ai_cnt fuel (start + count) next in
            if ltb (start + count) ai_cnt then rest else (next, all_read))
    ]

-- read_inputs on one coupler.
unfoldable pub read_inputs : (Buffer → Option Buffer) → (ℕ → ℕ) → ℕ → ℕ → Inputs → Inputs × End
read_inputs e_communicate ai_types ai_cnt fuel i =
    if ltb 0 ai_cnt
    then read_loop (read_input_registers e_communicate) ai_types ai_cnt fuel 0 i
    else (i, all_read)
