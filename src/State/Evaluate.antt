-- ===== src/State/Evaluate.antt =====
-- operation_state::evaluate (PAC/common/operation_mngr.cpp): the step of the whole state, the extra
-- steps and their enabling signals, then the active step with its time and its conditional jump.
use ptusa_main.Common.{
  ℕ, zero, suc, ◌+◌, Bool, false, ◌&&◌, ◌||◌, not, Option, none, some, List, length, get_elem?,
  get_or, ltb, ◌==◌, if◌then◌else◌,
}
use ptusa_main.Common.Int.{ℤ, negsuc, is_positive, is_negative, is_minus_one, to_u_int}
use ptusa_main.Plant.{Plant, Env}
use ptusa_main.Step
use ptusa_main.Step.{Step}
use ptusa_main.State.Defs.{
  State, step_at, with_steps, eval_time_at, step_time, step_max_time, to_step, finalize,
}
use ptusa_main.State.Extra.{is_active_extra_step, on_extra, off_extra}

-- owner->off_mode( n ) is the last call that `evaluate` makes. It is handed to the caller.
pub data Request : Type 0 where
  keep_on off_mode : Request

module _ ⦃plant : Plant⦄ where
  open plant use {World}

  unfoldable pub lost_signal_at : List Step → ℕ → World → Bool
  lost_signal_at steps i w = elim (get_elem? steps i) [
    | none ↦ false
    | some s ↦ Step.has_lost_signal s w
  ]

  unfoldable pub signal_at : List Step → ℕ → World → Bool
  signal_at steps i w = elim (get_elem? steps i) [
    | none ↦ false
    | some s ↦ Step.is_any_group_active s w
  ]

  -- One extra step of the first loop, by its number.
  unfoldable pub evaluate_extra : Env plant → Option ℕ → State → World → State × World
  unfolding step_at lost_signal_at off_extra
  evaluate_extra env (some (suc i)) st w =
      let (st', w') = with_steps st (step_at (Step.evaluate env) st.steps i w) in
      let (off, w'', _) = off_extra i st' w' in
      if ltb i (length st.steps)
      then (if lost_signal_at st'.steps i w' then (off, w'') else (st', w'))
      else (st, w)
  evaluate_extra env _ st w = (st, w)

  -- The first loop, by the position `idx` in a list that loses elements on the way. A round for each
  -- element that the list has at the start is enough.
  unfoldable pub evaluate_extras : Env plant → ℕ → ℕ → State → World → State × World
  unfolding evaluate_extra
  evaluate_extras env zero idx st w = (st, w)
  evaluate_extras env (suc rounds) idx st w =
      let (st', w') = evaluate_extra env (get_elem? st.active_steps idx) st w in
      evaluate_extras env rounds (idx + 1) st' w'

  -- The second loop: a step that is no extra step is turned on by its signals.
  unfoldable pub enable_step : Env plant → ℕ → State → World → State × World
  unfolding signal_at on_extra
  enable_step env i st w =
      let (on, w', _) = on_extra env i st w in
      if not (is_active_extra_step st (suc i)) && signal_at st.steps i w then (on, w') else (st, w)

  unfoldable pub enable_steps : Env plant → ℕ → ℕ → State → World → State × World
  unfolding enable_step
  enable_steps env zero i st w = (st, w)
  enable_steps env (suc rounds) i st w =
      let (st', w') = enable_step env i st w in enable_steps env rounds (i + 1) st' w'

  -- The active step's time is out.
  unfoldable pub time_out : Env plant → State → World → State × World × Request
  time_out env st w =
      let (next, w1) = to_step env (to_u_int st.active_step_next_step_n) st w in
      let (shut, w2) = finalize env st w in
      if is_minus_one st.active_step_next_step_n
      then (if is_positive st.n then (st, w, off_mode) else (shut, w2, keep_on))
      else (next, w1, keep_on)

  unfoldable pub jump_at : List Step → ℕ → World → Option ℤ
  jump_at steps i w = elim (get_elem? steps i) [ none ↦ none | some s ↦ Step.is_jump s w ]

  unfoldable pub jump_to : Env plant → Option ℤ → State → World → State × World
  jump_to env none st w = (st, w)
  jump_to env (some next) st w =
      let (st', w') = to_step env (to_u_int next) st w in
      if is_negative next then (st, w) else (st', w')

  unfoldable pub evaluate_active : Env plant → State → World → State × World
  unfolding step_at
  evaluate_active env st w = elim st.active_step_n [
    | none ↦ (st, w)
    | some i ↦ with_steps st (step_at (Step.evaluate env) st.steps i w)
  ]

  unfoldable pub follow_jump : Env plant → ℕ → State → World → State × World × Request
  unfolding jump_at jump_to evaluate_active
  follow_jump env i st w =
      let (moved, w1) = jump_to env (jump_at st.steps i w) st w in
      let (st', w2) = evaluate_active env moved w1 in (st', w2, keep_on)

  unfoldable pub is_timed : State → ℕ → Bool
  is_timed st i = is_positive (get_or st.step_duration_par_ns i (negsuc 0))

  unfoldable pub is_time_out : Env plant → State → ℕ → Bool
  is_time_out env st i =
      let time = step_time env st i in time == 0 || ltb time (eval_time_at env.now st.steps i)

  -- The part of `evaluate` on the active step with index `i`.
  unfoldable pub evaluate_step : Env plant → ℕ → State → World → State × World × Request
  unfolding time_out follow_jump is_timed is_time_out
  evaluate_step env i st w =
      let st1 = record st { active_step_max_time = step_max_time env st i } in
      let st2 = record st1 { active_step_time = step_time env st i } in
      if is_timed st i
      then (if is_time_out env st i then time_out env st2 w else follow_jump env i st2 w)
      else follow_jump env i st1 w

  unfoldable pub evaluate_main : Env plant → State → World → State × World × Request
  unfolding evaluate_step
  evaluate_main env st w = elim st.active_step_n [
    | none ↦ (st, w, keep_on)
    | some i ↦ evaluate_step env i st w
  ]

  unfoldable pub evaluate : Env plant → State → World → State × World × Request
  unfolding evaluate_extras enable_steps evaluate_main
  evaluate env st w =
      let (mode, w1) = Step.evaluate env st.mode_step w in
      let st1 = record st { mode_step = mode } in
      let (st2, w2) = evaluate_extras env (length st1.active_steps) 0 st1 w1 in
      let (st3, w3) = enable_steps env (length st2.steps) 0 st2 w2 in evaluate_main env st3 w3
