-- ===== src/Action/Simple.antt =====
-- The actions of PAC/common/operation_mngr.cpp that switch a list of devices: on, reverse, off, the
-- two with a delay, and the signals required to turn on.
use ptusa_main.Common.{ℕ, ◌+◌, Bool, true, false, ◌&&◌, List, [], ◌∷◌, for_each, if◌then◌else◌}
use ptusa_main.Common.Int.{pos_part, is_positive}
use ptusa_main.Plant.{Plant, Env, Kind, get_delta_millisec}
use ptusa_main.Action.Base.{Base, is_empty, main_group, main_subgroup, param_of}

abbrev pub is_valve : Kind → Bool
is_valve Kind.dt_v = true
is_valve _ = false

-- The result of action::check: 0, or 1 with the device that the reason names.
pub data Check : Type 0 where
  passed : Check
  no_signal : ℕ → Check
  wrong_type : ℕ → Check

module _ ⦃plant : Plant⦄ where
  open plant use {World, get_type, on, off, set_state, is_active, is_wash_seat_active, ms_le}

  unfoldable pub on_evaluate : Base → World → World
  on_evaluate b w = if is_empty b then w else for_each on (main_subgroup b) w

  unfoldable pub on_reverse_evaluate : Base → World → World
  on_reverse_evaluate b w = if is_empty b then w else for_each (set_state 2) (main_subgroup b) w

  -- A valve whose seat is being washed is left alone.
  unfoldable pub off_unless_wash : ℕ → World → World
  off_unless_wash dev w =
      if is_valve (get_type dev) && is_wash_seat_active w dev then w else off dev w

  unfoldable pub off_evaluate : Base → World → World
  off_evaluate b w = if is_empty b then w else for_each off_unless_wash (main_subgroup b) w

  -- Whether the delay of group `idx` is still running: a parameter is set and its time has not passed.
  unfoldable pub is_waiting : Env plant → Base → ℕ → ℕ → Bool
  is_waiting env b start_time idx =
      is_positive (param_of b.par_idx idx)
      && ms_le (get_delta_millisec env.now start_time) (env.par (pos_part (param_of b.par_idx idx)))

  unfoldable pub delay_on_groups : Env plant → Base → ℕ → ℕ → List (List ℕ) → World → World
  delay_on_groups env b start_time idx [] w = w
  delay_on_groups env b start_time idx (devs ∷ groups) w =
      delay_on_groups env b start_time (idx + 1) groups
        (if is_waiting env b start_time idx then w else for_each on devs w)

  unfoldable pub delay_on_evaluate : Env plant → Base → ℕ → World → World
  delay_on_evaluate env b start_time w =
      if is_empty b then w else delay_on_groups env b start_time 0 (main_group b) w

  unfoldable pub delay_off_groups : Env plant → Base → ℕ → ℕ → List (List ℕ) → World → World
  delay_off_groups env b start_time idx [] w = w
  delay_off_groups env b start_time idx (devs ∷ groups) w =
      let new_state = if is_waiting env b start_time idx then 1 else 0 in
      delay_off_groups env b start_time (idx + 1) groups (for_each (set_state new_state) devs w)

  unfoldable pub delay_off_evaluate : Env plant → Base → ℕ → World → World
  delay_off_evaluate env b start_time w =
      if is_empty b then w else delay_off_groups env b start_time 0 (main_group b) w

  unfoldable pub first_inactive : World → List ℕ → Check
  first_inactive w [] = passed
  first_inactive w (dev ∷ devs) =
      let rest = first_inactive w devs in if is_active w dev then rest else no_signal dev

  unfoldable pub required_check : Base → World → Check
  unfolding first_inactive
  required_check b w = if is_empty b then passed else first_inactive w (main_subgroup b)
