-- ===== src/Step.antt =====
-- class step of PAC/common/operation_mngr.cpp: fourteen actions in a fixed order, the time of the
-- start and whether the step is active.
use ptusa_main.Common.{
  ℕ, ◌+◌, ◌%◌, Bool, true, false, Option, none, some, List, [], ◌∷◌, map, get_elem?, for_each, all,
  any, if◌then◌else◌,
}
use ptusa_main.Common.Int.{ℤ}
use ptusa_main.Plant.{Plant, Env, word, get_delta_millisec}
use ptusa_main.Action.Base
use ptusa_main.Action.Base.{new_base}
use ptusa_main.Action.Simple.{Check, passed, no_signal, wrong_type}
use ptusa_main.Action.Wash.{g_subgroups_cnt}
use ptusa_main.Action.Seat.{new_seat}
use ptusa_main.Action.Jump
use ptusa_main.Action.Dispatch
use ptusa_main.Action.Dispatch.{
  Action, checked_devices, on_devices, on_reverse, off_devices, open_seat, required_di, di_do,
  inverted_di_do, ai_ao, wash, enable_step, delay_on, delay_off, jump_if,
}

pub record Step : Type 0 where
  pub actions : List Action
  pub start_time : ℕ
  pub is_mode : Bool
  pub dx_time : ℕ
  pub active : Bool

-- enum ACTIONS
abbrev pub a_required_fb : ℕ
a_required_fb = 5

abbrev pub a_di_do : ℕ
a_di_do = 6

abbrev pub a_inverted_di_do : ℕ
a_inverted_di_do = 7

abbrev pub a_ai_ao : ℕ
a_ai_ao = 8

abbrev pub a_enable_step_by_signal : ℕ
a_enable_step_by_signal = 10

abbrev pub a_jump_if : ℕ
a_jump_if = 13

-- The constructor. The times of the delayed actions are set when the step starts.
unfoldable pub new_step : ℕ → Bool → Step
unfolding new_base new_seat
new_step now is_mode = record {
  actions =
      checked_devices (new_base 1)
      ∷ on_devices (new_base 1)
      ∷ on_reverse (new_base 1)
      ∷ off_devices (new_base 1)
      ∷ open_seat (new_seat is_mode)
      ∷ required_di (new_base 1)
      ∷ di_do (new_base 1)
      ∷ inverted_di_do (new_base 1)
      ∷ ai_ao (new_base 1)
      ∷ wash (new_base g_subgroups_cnt)
      ∷ enable_step (new_base 1) true
      ∷ delay_on (new_base 1) now
      ∷ delay_off (new_base 1) now
      ∷ jump_if (new_base 2) []
      ∷ [];
  start_time = 0;
  is_mode = is_mode;
  dx_time = 0;
  active = false;
}

unfoldable pub is_empty : Step → Bool
is_empty s = all Dispatch.is_empty s.actions

unfoldable pub set_dx_time : ℕ → Step → Step
set_dx_time t s = record s { dx_time = t }

-- get_eval_time and get_latest_eval_time
unfoldable pub get_latest_eval_time : ℕ → Step → ℕ
get_latest_eval_time now s = get_delta_millisec now s.start_time

unfoldable pub get_eval_time : ℕ → Step → ℕ
get_eval_time now s = (get_delta_millisec now s.start_time + s.dx_time) % word

-- The first check that fails.
abbrev pub first_failed : Check → Check → Check
first_failed passed rest = rest
first_failed (no_signal d) rest = no_signal d
first_failed (wrong_type d) rest = wrong_type d

module _ ⦃plant : Plant⦄ where
  open plant use {World}

  unfoldable pub init : Env plant → ℕ → Step → Step
  init env step_time s = record s {
    start_time = env.now;
    actions = map (Dispatch.init env step_time) s.actions;
    active = true;
  }

  unfoldable pub evaluate_actions : Env plant → List Action → World → List Action × World
  evaluate_actions env [] w = ([], w)
  evaluate_actions env (a ∷ rest) w =
      let (a', w') = Dispatch.evaluate env a w in
      let (rest', w'') = evaluate_actions env rest w' in (a' ∷ rest', w'')

  unfoldable pub evaluate : Env plant → Step → World → Step × World
  evaluate env s w =
      let (actions, w') = evaluate_actions env s.actions w in (record s { actions = actions }, w')

  unfoldable pub finalize : Step → World → Step × World
  finalize s w = (record s { dx_time = 0; active = false }, for_each Dispatch.finalize s.actions w)

  -- The check of the action at an index, as `actions[ i ]->check( … )`.
  unfoldable pub check_at : Step → ℕ → World → Check
  check_at s i w = elim (get_elem? s.actions i) [
    | none ↦ passed
    | some a ↦ Dispatch.check_signals a w
  ]

  unfoldable pub check : Step → World → Check
  unfolding check_at
  check s w = first_failed (check_at s a_di_do w) (
      first_failed (check_at s a_ai_ao w) (
        first_failed (check_at s a_inverted_di_do w)
          (if s.is_mode then check_at s a_required_fb w else passed)))

  unfoldable pub check_devices : Step → World → Bool
  check_devices s w = any (λ a. Dispatch.check_devices a w) s.actions

  -- The conditional jump of the step, and its signals to turn an extra step on and off.
  unfoldable pub jump_of : Option Action → World → Option ℤ
  jump_of (some (jump_if b next_n)) w = Jump.is_jump w b next_n
  jump_of _ w = none

  unfoldable pub is_jump : Step → World → Option ℤ
  unfolding jump_of
  is_jump s w = jump_of (get_elem? s.actions a_jump_if) w

  unfoldable pub signal_of : Option Action → World → Bool
  signal_of (some (enable_step b _)) w = Jump.is_any_group_active w b
  signal_of _ w = false

  unfoldable pub is_any_group_active : Step → World → Bool
  unfolding signal_of
  is_any_group_active s w = signal_of (get_elem? s.actions a_enable_step_by_signal) w

  unfoldable pub lost_signal_of : Option Action → World → Bool
  lost_signal_of (some (enable_step b flag)) w =
      if Base.is_empty b
      then false
      else if Jump.is_any_group_active w b
      then false
      else Jump.should_turn_off b flag
  lost_signal_of _ w = false

  -- Whether the enabling signals are given, are all lost, and their loss turns the step off.
  unfoldable pub has_lost_signal : Step → World → Bool
  unfolding lost_signal_of
  has_lost_signal s w = lost_signal_of (get_elem? s.actions a_enable_step_by_signal) w
