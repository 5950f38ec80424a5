-- ===== src/State/Checks.antt =====
-- The checks of operation_state (PAC/common/operation_mngr.cpp): devices, parameters and times of
-- the steps, and the jump to another state.
use ptusa_main.Common.{
  ℕ, ◌-◌, ◌*◌, ◌%◌, Bool, false, ◌&&◌, ◌||◌, not, Option, none, some, List, [], ◌∷◌, is_nil,
  get_elem?, get_or, all, leb, ◌==◌, if◌then◌else◌,
}
use ptusa_main.Common.Int.{ℤ, negsuc, pos_part, is_positive}
use ptusa_main.Plant.{Plant, Env, word}
use ptusa_main.Action.Simple.{Check}
use ptusa_main.Step
use ptusa_main.Step.{Step, first_failed}
use ptusa_main.State.Defs.{State}

-- The step and the limit that `make_str` is called with.
pub record Overtime : Type 0 where
  pub step_n : ℕ
  pub step_max_time : ℕ

unfoldable pub latest_time_at : ℕ → List Step → ℕ → ℕ
latest_time_at now steps i = elim (get_elem? steps i) [
  | none ↦ 0
  | some s ↦ Step.get_latest_eval_time now s
]

-- The limit is set and reached. The limit is in seconds, and the product an unsigned word.
unfoldable pub is_over : ℕ → ℕ → Bool
is_over limit time = not (limit == 0) && leb (1000 * limit % word) time

module _ ⦃plant : Plant⦄ where
  open plant use {World, is_positive_value, to_u_int_value}

  -- check_on: the first check of the steps that fails, then that of the whole state.
  unfoldable pub check_steps : List Step → World → Check → Check
  check_steps [] w rest = rest
  check_steps (s ∷ steps) w rest = first_failed (Step.check s w) (check_steps steps w rest)

  unfoldable pub check_on : State → World → Check
  unfolding check_steps
  check_on st w = check_steps st.steps w (Step.check st.mode_step w)

  unfoldable pub step_has_error : Option ℕ → List Step → World → Bool
  step_has_error none steps w = false
  step_has_error (some i) steps w = elim (get_elem? steps i) [
    | none ↦ false
    | some s ↦ Step.check_devices s w
  ]

  unfoldable pub check_devices : State → World → Bool
  unfolding step_has_error
  check_devices st w =
      Step.check_devices st.mode_step w || step_has_error st.active_step_n st.steps w

  -- The message on the active step.
  unfoldable pub active_overtime : Env plant → State → Option ℕ → Option Overtime
  unfolding latest_time_at is_over
  active_overtime env st none = none
  active_overtime env st (some i) = elim (get_elem? st.steps i) [
    | none ↦ none
    | some s ↦
        if is_over st.active_step_max_time (Step.get_latest_eval_time env.now s)
        then some (record { step_n = i; step_max_time = st.active_step_max_time })
        else none
  ]

  unfoldable pub extra_limit : Env plant → State → ℕ → ℕ
  extra_limit env st i =
      let par_n = get_or st.step_max_duration_par_ns i (negsuc 0) in
      if is_positive par_n then to_u_int_value (env.par (pos_part par_n)) else 0

  -- The loop over the extra steps, whose call of `make_str` gives the limit first.
  unfoldable pub extra_overtime : Env plant → State → List ℕ → Option Overtime
  unfolding latest_time_at is_over extra_limit
  extra_overtime env st [] = none
  extra_overtime env st (a ∷ extra) =
      let rest = extra_overtime env st extra in
      let limit = extra_limit env st (a - 1) in
      if is_over limit (latest_time_at env.now st.steps (a - 1))
      then some (record { step_n = limit; step_max_time = a - 1 })
      else rest

  -- `some` where the source returns 1.
  unfoldable pub check_max_step_time : Env plant → State → Option Overtime
  unfolding active_overtime extra_overtime
  check_max_step_time env st =
      if is_nil st.step_max_duration_par_ns
      then none
      else elim (active_overtime env st st.active_step_n) [
        | none ↦ extra_overtime env st st.active_steps
        | some o ↦ some o
      ]

  abbrev pub is_zero_duration : Env plant → ℤ → Bool
  is_zero_duration env par_n =
      is_positive par_n && not (is_positive_value (env.par (pos_part par_n)))

  -- Whether every step has a duration and all are zero.
  unfoldable pub check_steps_params : Env plant → State → Bool
  check_steps_params env st =
      not (is_nil st.step_duration_par_ns) && all (is_zero_duration env) st.step_duration_par_ns

  unfoldable pub is_goto_next_state : State → World → Option ℤ
  is_goto_next_state st w = Step.is_jump st.mode_step w
