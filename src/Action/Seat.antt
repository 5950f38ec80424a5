-- ===== src/Action/Seat.antt =====
-- open_seat_action of PAC/common/operation_mngr.cpp: the seats of mix-proof valves are washed in
-- turn, the upper groups and then the lower ones, with a wait before each.
use ptusa_main.Common.{
  ℕ, ◌+◌, ◌-◌, ◌*◌, ◌/◌, ◌%◌, Bool, true, false, ◌&&◌, List, [], ◌∷◌, ◌++◌, length, is_nil, get_or,
  set, for_each, leb, ltb, ◌==◌, if◌then◌else◌,
}
use ptusa_main.Plant.{Plant, Env, word, get_delta_millisec}
use ptusa_main.Action.Simple.{is_valve, off_unless_wash}

pub data Phase : Type 0 where
  waiting open_upper open_lower : Phase

pub record Seat : Type 0 where
  pub phase : Phase
  pub next_phase : Phase
  pub active_group_n : ℕ
  pub wait_time : ℕ
  pub upper : List (List ℕ)
  pub lower : List (List ℕ)
  pub start_cycle_time : ℕ
  pub is_mode : Bool

unfoldable pub new_seat : Bool → Seat
new_seat is_mode = record {
  phase = waiting;
  next_phase = open_upper;
  active_group_n = 0;
  wait_time = 60_000;
  upper = [];
  lower = [];
  start_cycle_time = 0;
  is_mode = is_mode;
}

-- valve::VALVE_STATE
abbrev pub v_lower_seat : ℕ
v_lower_seat = 3

abbrev pub v_upper_seat : ℕ
v_upper_seat = 2

-- A group is added at the end only, and a device to a group that is there.
unfoldable pub add_to_group : ℕ → ℕ → List (List ℕ) → List (List ℕ)
add_to_group dev group groups =
    let grown = if leb (length groups) group then groups ++ [] ∷ [] else groups in
    if leb (length grown) group then grown else set grown group (get_or grown group [] ++ dev ∷ [])

unfoldable pub seat_add_dev : Seat → ℕ → ℕ → ℕ → Seat
unfolding add_to_group
seat_add_dev s dev group seat_type =
    if seat_type == v_lower_seat
    then record s { lower = add_to_group dev group s.lower }
    else record s { upper = add_to_group dev group s.upper }

abbrev pub has_no_groups : Seat → Bool
has_no_groups s = is_nil s.upper && is_nil s.lower

-- wash_seat_devices.size() > 0 && wash_seat_devices[ 0 ].empty()
abbrev pub first_is_nil : List (List ℕ) → Bool
first_is_nil [] = false
first_is_nil (group ∷ _) = is_nil group

unfoldable pub seat_is_empty : Seat → Bool
seat_is_empty s = if has_no_groups s then true else first_is_nil s.upper && first_is_nil s.lower

-- ( wait_time - max_flip_time * groups_cnt ) / ( groups_cnt + 1 ), unsigned.
unfoldable pub share_of_wait : ℕ → ℕ → ℕ → ℕ
share_of_wait total flip groups = (total + word - flip * groups % word) % word / (groups + 1)

module _ ⦃plant : Plant⦄ where
  open plant use {World, get_type, on, off, set_state, set_seat_wash_state, is_wash_seat_active}

  -- `init`: `step_time` is the owner's get_active_step_set_time().
  unfoldable pub seat_init : Env plant → ℕ → Seat → Seat
  unfolding share_of_wait
  seat_init env step_time s =
      let total = if s.is_mode then env.mix_flip_period * 1000 % word else step_time in
      let upper_time = env.mix_flip_upper_time in
      let lower_time = env.mix_flip_lower_time in
      let flip = if ltb lower_time upper_time then upper_time else lower_time in
      if has_no_groups s then s else record s {
        start_cycle_time = env.now;
        phase = waiting;
        next_phase = open_upper;
        active_group_n = 0;
        wait_time = share_of_wait total flip (length s.upper + length s.lower);
      }

  -- switch_off_group with and without the check of the valve's washing.
  unfoldable pub off_washed : ℕ → World → World
  off_washed dev w =
      if is_valve (get_type dev) then set_seat_wash_state dev false (off dev w) else off dev w

  unfoldable pub switch_off_group : List ℕ → World → World
  unfolding off_washed
  switch_off_group group w = for_each off_washed group w

  unfoldable pub switch_off_idle : List (List ℕ) → World → World
  unfolding off_unless_wash
  switch_off_idle groups w = for_each (for_each off_unless_wash) groups w

  unfoldable pub on_washed : ℕ → ℕ → World → World
  on_washed seat dev w =
      if is_valve (get_type dev)
      then set_seat_wash_state dev true (set_state seat dev w)
      else on dev w

  unfoldable pub switch_on_group : ℕ → List ℕ → World → World
  unfolding on_washed
  switch_on_group seat group w = for_each (on_washed seat) group w

  -- `finalize`, by the phase.
  unfoldable pub off_phase : Phase → Seat → World → World
  unfolding switch_off_group
  off_phase waiting s w = w
  off_phase open_upper s w = switch_off_group (get_or s.upper s.active_group_n []) w
  off_phase open_lower s w = switch_off_group (get_or s.lower s.active_group_n []) w

  unfoldable pub seat_finalize : Seat → World → World
  unfolding off_phase
  seat_finalize s w = if has_no_groups s then w else off_phase s.phase s w

  -- The end of a group's washing: on to the next group, or to the first of the other seats.
  unfoldable pub next_group : ℕ → Phase → ℕ → Seat → Seat
  next_group now other size s =
      let last = leb size (s.active_group_n + 1) in
      record s {
        phase = waiting;
        start_cycle_time = now;
        active_group_n = if last then 0 else s.active_group_n + 1;
        next_phase = if last then other else s.next_phase;
      }

  -- `evaluate`, by the phase, where some group is given.
  unfoldable pub evaluate_phase : Env plant → Phase → Seat → World → Seat × World
  unfolding seat_finalize switch_on_group switch_off_idle next_group
  evaluate_phase env waiting s w =
      let idle = switch_off_idle s.upper (switch_off_idle s.lower w) in
      if ltb s.wait_time (get_delta_millisec env.now s.start_cycle_time)
      then (record s { phase = s.next_phase; start_cycle_time = env.now }, idle)
      else (s, idle)
  evaluate_phase env open_upper s w =
      if is_nil s.upper
      then (record s { phase = open_lower; next_phase = open_lower }, w)
      else if ltb (get_delta_millisec env.now s.start_cycle_time) env.mix_flip_upper_time
      then (s, switch_on_group v_upper_seat (get_or s.upper s.active_group_n []) w)
      else (next_group env.now open_lower (length s.upper) s, seat_finalize s w)
  evaluate_phase env open_lower s w =
      if is_nil s.lower
      then (record s { phase = open_upper; next_phase = open_upper }, w)
      else if ltb (get_delta_millisec env.now s.start_cycle_time) env.mix_flip_lower_time
      then (s, switch_on_group v_lower_seat (get_or s.lower s.active_group_n []) w)
      else (next_group env.now open_upper (length s.lower) s, seat_finalize s w)

  unfoldable pub seat_evaluate : Env plant → Seat → World → Seat × World
  unfolding evaluate_phase
  seat_evaluate env s w = if has_no_groups s then (s, w) else evaluate_phase env s.phase s w
