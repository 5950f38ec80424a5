-- ===== src/State/Extra.antt =====
-- The extra active steps of operation_state (PAC/common/operation_mngr.cpp): on_extra_step,
-- off_extra_step and switch_active_extra_step.
use ptusa_main.Common.{
  ℕ, zero, suc, Bool, ◌&&◌, true, false, Option, none, some, List, [], ◌∷◌, ◌++◌, length, get_elem?,
  contains, erase, replace, ltb, ◌==◌, if◌then◌else◌,
}
use ptusa_main.Plant.{Plant, Env}
use ptusa_main.Action.Simple.{Check, passed}
use ptusa_main.Step
use ptusa_main.Step.{Step}
use ptusa_main.State.Defs.{State, start_step, finalize_step}

unfoldable pub is_active_extra_step : State → ℕ → Bool
is_active_extra_step st step_idx = contains st.active_steps step_idx

-- 1 + active_step_n == step_idx, for the step with index `i`.
abbrev pub is_main : Option ℕ → ℕ → Bool
is_main none i = false
is_main (some a) i = a == i

abbrev pub is_passed : Check → Bool
is_passed passed = true
is_passed _ = false

module _ ⦃plant : Plant⦄ where
  open plant use {World}

  unfoldable pub step_is_allowed : List Step → ℕ → World → Bool
  step_is_allowed steps i w = elim (get_elem? steps i) [
    | none ↦ true
    | some s ↦ is_passed (Step.check s w)
  ]

  -- on_extra_step for the number `i + 1`, with the code that it returns. The number is recorded
  -- before the checks of the step, and stays where they fail.
  unfoldable pub on_extra : Env plant → ℕ → State → World → State × World × ℕ
  unfolding start_step step_is_allowed
  on_extra env i st w =
      let added = record st { active_steps = st.active_steps ++ suc i ∷ [] } in
      let (started, w') = start_step env i added w in
      if ltb i (length st.steps)
      then (if is_main st.active_step_n i
          then (st, w, 0)
          else if contains st.active_steps (suc i)
          then (st, w, 0)
          else if step_is_allowed st.steps i w
          then (started, w', 0)
          else (added, w, 1))
      else (st, w, 1)

  unfoldable pub off_extra : ℕ → State → World → State × World × ℕ
  unfolding finalize_step
  off_extra i st w =
      let (shut, w') = finalize_step i st w in
      if ltb i (length st.steps) && contains st.active_steps (suc i)
      then (record shut { active_steps = erase (suc i) st.active_steps }, w', 0)
      else (st, w, 0)

  unfoldable pub switch_extra : Env plant → ℕ → ℕ → State → World → State × World × ℕ
  unfolding finalize_step start_step
  switch_extra env off on st w =
      let (shut, w1) = finalize_step off st w in
      let (started, w2) = start_step env on shut w1 in
      if ltb on (length st.steps)
      then (if is_main st.active_step_n on
          then (st, w, 0)
          else if contains st.active_steps (suc off)
          then (record started { active_steps = replace (suc off) (suc on) st.active_steps }, w2, 0)
          else (st, w, 0))
      else (st, w, 1)

  -- The methods on any number that is not negative. `none`: the source reads `steps[ -1 ]`.
  unfoldable pub on_extra_step : Env plant → ℕ → State → World → Option (State × World × ℕ)
  unfolding on_extra
  on_extra_step env zero st w = elim st.active_step_n [
    | none ↦ some (st, w, 0)
    | some _ ↦ if contains st.active_steps 0 then some (st, w, 0) else none
  ]
  on_extra_step env (suc i) st w = some (on_extra env i st w)

  unfoldable pub off_extra_step : ℕ → State → World → Option (State × World × ℕ)
  unfolding off_extra
  off_extra_step zero st w = if contains st.active_steps 0 then none else some (st, w, 0)
  off_extra_step (suc i) st w = some (off_extra i st w)

  unfoldable pub switch_active_extra_step :
      Env plant → ℕ → ℕ → State → World → Option (State × World × ℕ)
  unfolding switch_extra
  switch_active_extra_step env zero zero st w = elim st.active_step_n [
    | none ↦ some (st, w, 0)
    | some _ ↦ if contains st.active_steps 0 then none else some (st, w, 0)
  ]
  switch_active_extra_step env zero (suc on) st w =
      if ltb on (length st.steps)
      then (if is_main st.active_step_n on
          then some (st, w, 0)
          else if contains st.active_steps 0
          then none
          else some (st, w, 0))
      else some (st, w, 1)
  switch_active_extra_step env (suc off) zero st w = elim st.active_step_n [
    | none ↦ some (st, w, 0)
    | some _ ↦ if contains st.active_steps (suc off) then none else some (st, w, 0)
  ]
  switch_active_extra_step env (suc off) (suc on) st w = some (switch_extra env off on st w)
