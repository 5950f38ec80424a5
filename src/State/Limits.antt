-- ===== src/State/Limits.antt =====
-- The limits of the steps' times and the round over the extra steps, in
-- operation_state of PAC/common/operation_mngr.cpp.
use ptusa_main.Common.{
  ℕ, zero, suc, ◌≡◌, refl, ◌∙◌, ap, ◌<◌, true, false, none, some, List, [], ◌∷◌, length, get_elem?,
  contains, erase, arith, is_nil,
}
use ptusa_main.Plant.{Plant, Env}
use ptusa_main.Step
use ptusa_main.Step.{Step}
use ptusa_main.State.Defs.{State, step_at, with_steps}
use ptusa_main.State.Extra.{off_extra}
use ptusa_main.State.Evaluate.{evaluate_extra, evaluate_extras, lost_signal_at}
use ptusa_main.State.Checks.{
  active_overtime, extra_overtime, extra_limit, is_over, latest_time_at, check_max_step_time,
}

module _ ⦃plant : Plant⦄ where
  open plant use {World}

  extra_overtime_head :
      (env : Env plant) (a : ℕ) (extra : List ℕ) (st : State)
      → is_over (extra_limit env st a) (latest_time_at env.now st.steps a) ≡ true
      → extra_overtime env st (suc a ∷ extra)
        ≡ some (record { step_n = extra_limit env st a; step_max_time = a })
  unfolding extra_overtime
  extra_overtime_head env a extra st o = ground arith

  -- Where the active step is within its limit and the first extra step is over its own, the message
  -- is made with the limit in the place of the number of the step and the number in the place of
  -- the limit.
  pub check_max_step_time-extra :
      (env : Env plant) (a : ℕ) (extra : List ℕ) (st : State)
      → is_nil st.step_max_duration_par_ns ≡ false
      → active_overtime env st st.active_step_n ≡ none
      → st.active_steps ≡ suc a ∷ extra
      → is_over (extra_limit env st a) (latest_time_at env.now st.steps a) ≡ true
      → check_max_step_time env st
        ≡ some (record { step_n = extra_limit env st a; step_max_time = a })
  unfolding check_max_step_time extra_overtime
  check_max_step_time-extra env a extra st p n e o =
      rw (p, n) (ap (extra_overtime env st) e ∙ extra_overtime_head env a extra st o)

  step_at-length :
      (f : Step → World → Step × World) (steps : List Step) (i : ℕ) (w : World)
      → length ((step_at f steps i w).0) ≡ length steps
  unfolding step_at
  step_at-length f [] i w = refl
  step_at-length f (s ∷ steps) zero w = refl
  step_at-length f (s ∷ steps) (suc i) w = ap suc (step_at-length f steps i w)

  -- The extra step that loses its signals is taken out of the list.
  evaluate_extra_shrinks :
      (env : Env plant) (a : ℕ) (st : State) (w : World)
      → a < length st.steps
      → contains st.active_steps (suc a) ≡ true
      → (let (st', w') = with_steps st (step_at (Step.evaluate env) st.steps a w) in
          lost_signal_at st'.steps a w' ≡ true)
      → ((evaluate_extra env (some (suc a)) st w).0).active_steps ≡ erase (suc a) st.active_steps
  unfolding evaluate_extra off_extra
  evaluate_extra_shrinks env a st w h c l =
      ground (arith, step_at-length (Step.evaluate env) st.steps a w)

  erase_first : (a b : ℕ) → get_elem? (erase (suc a) (suc a ∷ suc b ∷ [])) 1 ≡ none
  unfolding erase
  erase_first a b = ground arith

  contains_first : (a : ℕ) (xs : List ℕ) → contains (suc a ∷ xs) (suc a) ≡ true
  unfolding contains
  contains_first a xs = ground arith

  second_round : Env plant → State × World → State × World
  second_round env (st, w) = evaluate_extra env (get_elem? st.active_steps 1) st w

  second_round_idle :
      (env : Env plant) (st : State) (w : World)
      → get_elem? st.active_steps 1 ≡ none
      → second_round env (st, w) ≡ (st, w)
  unfolding second_round evaluate_extra
  second_round_idle env st w e = rw e refl

  -- Where a state has two extra steps, and the first exists and, evaluated, loses its enabling
  -- signals, the round over the extra steps is that on the first alone.
  pub evaluate_extras_skip :
      (env : Env plant) (a b : ℕ) (st : State) (w : World)
      → st.active_steps ≡ suc a ∷ suc b ∷ []
      → a < length st.steps
      → (let (st', w') = with_steps st (step_at (Step.evaluate env) st.steps a w) in
          lost_signal_at st'.steps a w' ≡ true)
      → evaluate_extras env 2 0 st w ≡ evaluate_extra env (some (suc a)) st w
  unfolding evaluate_extras second_round
  evaluate_extras_skip env a b st w e h l =
      let has : contains st.active_steps (suc a) ≡ true = rw e (contains_first a (suc b ∷ [])) in
      let (st', w') = evaluate_extra env (some (suc a)) st w in
      ap (λ o. second_round env (evaluate_extra env o st w)) (ap (λ x. get_elem? x 0) e)
      ∙ second_round_idle env st' w' (
          ap (λ x. get_elem? x 1) (evaluate_extra_shrinks env a st w h has l ∙ ap (erase (suc a)) e)
          ∙ erase_first a b)
