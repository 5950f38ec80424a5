-- ===== src/Action/Turns.antt =====
-- The turns of open_seat_action (PAC/common/operation_mngr.cpp): the group that is washed, and the
-- time of the wait.
use ptusa_main.Common.{
  ℕ, ◌+◌, ◌-◌, ◌*◌, ◌/◌, ◌%◌, ◌≤◌, ◌<◌, ◌≡◌, refl, ◌⊎◌, inl, inr, List, [], ◌∷◌, length, arith,
}
use ptusa_main.Plant.{Plant, Env, word}
use ptusa_main.Action.Seat.{
  Seat, Phase, waiting, open_upper, open_lower, share_of_wait, seat_init, seat_evaluate,
  evaluate_phase, next_group,
}

-- The phase whose groups `active_group_n` counts.
abbrev pub turn : Phase → Phase → Phase
turn waiting next = next
turn p next = p

abbrev pub groups_of : Phase → Seat → List (List ℕ)
groups_of open_upper s = s.upper
groups_of open_lower s = s.lower
groups_of waiting s = []

-- The number of the group is in range, or there is no group on that side; a phase that washes is the
-- next one too, and the next one is never the wait.
pub record InTurn (s : Seat) : Type 0 where
  pub in_range :
      (s.active_group_n < length (groups_of s.next_phase s))
      ⊎ ((groups_of s.next_phase s ≡ []) × (s.active_group_n ≡ 0))
  pub same : (s.phase ≡ waiting) ⊎ (s.phase ≡ s.next_phase)
  pub washes : (s.next_phase ≡ open_upper) ⊎ (s.next_phase ≡ open_lower)

start_in_range : (groups : List (List ℕ)) → (0 < length groups) ⊎ (groups ≡ [])
start_in_range [] = inr refl
start_in_range (g ∷ groups) = inl (omega arith)

module _ ⦃plant : Plant⦄ where
  open plant use {World}

  pub seat_init-InTurn :
      (env : Env plant) (step_time : ℕ) (s : Seat) → InTurn s → InTurn (seat_init env step_time s)
  unfolding seat_init
  seat_init-InTurn env step_time s t = ground arith

  evaluate_phase-InTurn :
      (env : Env plant) (p : Phase) (s : Seat) (w : World)
      → s.phase ≡ p
      → InTurn s
      → InTurn (evaluate_phase env p s w).0
  unfolding evaluate_phase next_group
  evaluate_phase-InTurn env waiting s w e t =
      ground (arith, start_in_range s.upper, start_in_range s.lower)
  evaluate_phase-InTurn env open_upper s w e t =
      ground (arith, start_in_range s.upper, start_in_range s.lower)
  evaluate_phase-InTurn env open_lower s w e t =
      ground (arith, start_in_range s.upper, start_in_range s.lower)

  -- An evaluation of the seat washing keeps the turns in order: the group to wash next, or being
  -- washed, exists, or its side has no groups and the number is 0, and a phase of washing is the
  -- next phase too.
  pub seat_evaluate-InTurn :
      (env : Env plant) (s : Seat) (w : World) → InTurn s → InTurn (seat_evaluate env s w).0
  unfolding seat_evaluate
  seat_evaluate-InTurn env s w t = ground (arith, evaluate_phase-InTurn env s.phase s w refl t)

-- Where the time of the step is an unsigned word and no less than the washings of all groups take,
-- the waits before each group and after the last, and the washings, fit into it.
pub share_of_wait_fits :
    (total flip groups : ℕ)
    → total < word
    → flip * groups ≤ total
    → (groups + 1) * share_of_wait total flip groups + groups * flip ≤ total
unfolding share_of_wait
share_of_wait_fits total flip groups h k =
    let rest : (total + word - flip * groups % word) % word ≡ total - flip * groups = omega arith in
    let parts : (groups + 1) * ((total - flip * groups) / (groups + 1)) ≤ total - flip * groups =
      omega arith in
    rw rest (omega arith)

-- Where the washings take longer than the time of the step, and less than an unsigned word holds,
-- the wait is a share of 2 ^ 32 less what is missing.
pub share_of_wait_wraps :
    (total flip groups : ℕ)
    → total < flip * groups
    → flip * groups < word
    → share_of_wait total flip groups ≡ (word - (flip * groups - total)) / (groups + 1)
unfolding share_of_wait
share_of_wait_wraps total flip groups h k =
    let rest : (total + word - flip * groups % word) % word ≡ word - (flip * groups - total) =
      omega arith in
    rw rest
