-- ===== src/State/Defs.antt =====
-- The fields of operation_state and its methods that move between steps (PAC/common/operation_mngr.cpp).
-- A step is named by its number from 1, as in the source; -1 for no active step is `none`.
use ptusa_main.Common.{
  ℕ, zero, suc, ◌+◌, ◌^◌, Bool, true, false, ◌&&◌, ◌||◌, not, Option, none, some, List, [], ◌∷◌,
  ◌++◌, length, is_nil, get_elem?, get_or, all, ltb, if◌then◌else◌,
}
use ptusa_main.Common.Int.{ℤ, negsuc, pos_part, is_positive, is_minus_one, to_u_int}
use ptusa_main.Plant.{Plant, Env, get_delta_millisec}
use ptusa_main.Step
use ptusa_main.Step.{Step, new_step}

pub record State : Type 0 where
  pub steps : List Step
  pub mode_step : Step
  pub active_step_n : Option ℕ
  pub active_step_time : ℕ
  pub active_step_max_time : ℕ
  pub active_step_next_step_n : ℤ
  pub step_duration_par_ns : List ℤ
  pub step_max_duration_par_ns : List ℤ
  pub next_step_ns : List ℤ
  pub start_time : ℕ
  pub n : ℤ
  pub dx_step_time : ℕ
  pub active_steps : List ℕ
  pub saved_active_steps : List ℕ

unfoldable pub new_state : ℕ → ℤ → State
new_state now n = record {
  steps = [];
  mode_step = new_step now true;
  active_step_n = none;
  active_step_time = 0;
  active_step_max_time = 0;
  active_step_next_step_n = negsuc 0;
  step_duration_par_ns = [];
  step_max_duration_par_ns = [];
  next_step_ns = [];
  start_time = now;
  n = n;
  dx_step_time = 0;
  active_steps = [];
  saved_active_steps = [];
}

unfoldable pub add_step : ℕ → ℤ → ℤ → ℤ → State → State
add_step now next_step_n duration_par_n max_duration_par_n st = record st {
  steps = st.steps ++ new_step now false ∷ [];
  next_step_ns = st.next_step_ns ++ next_step_n ∷ [];
  step_duration_par_ns = st.step_duration_par_ns ++ duration_par_n ∷ [];
  step_max_duration_par_ns = st.step_max_duration_par_ns ++ max_duration_par_n ∷ [];
}

-- steps[ i ]->f( … ) for a method that changes the step and the devices.
unfoldable pub step_at {ℓ} :
    {W : Type ℓ} → (Step → W → Step × W) → List Step → ℕ → W → List Step × W
step_at f [] i w = ([], w)
step_at f (s ∷ steps) zero w = let (s', w') = f s w in (s' ∷ steps, w')
step_at f (s ∷ steps) (suc i) w = let (steps', w') = step_at f steps i w in (s ∷ steps', w')

-- The same for a method that does not touch the devices.
unfoldable pub modify : (Step → Step) → List Step → ℕ → List Step
modify f [] i = []
modify f (s ∷ steps) zero = f s ∷ steps
modify f (s ∷ steps) (suc i) = s ∷ modify f steps i

-- get_active_step_set_time, active_step and the two times.
unfoldable pub get_active_step_set_time : State → ℕ
get_active_step_set_time st = elim st.active_step_n [ none ↦ 0 | some _ ↦ st.active_step_time ]

unfoldable pub active_step : State → ℕ
active_step st = elim st.active_step_n [ none ↦ 0 | some i ↦ suc i ]

unfoldable pub steps_count : State → ℕ
steps_count st = length st.steps

unfoldable pub evaluation_time : ℕ → State → ℕ
evaluation_time now st = get_delta_millisec now st.start_time

unfoldable pub eval_time_at : ℕ → List Step → ℕ → ℕ
eval_time_at now steps i = elim (get_elem? steps i) [ none ↦ 0 | some s ↦ Step.get_eval_time now s ]

unfoldable pub active_step_evaluation_time : ℕ → State → ℕ
unfolding eval_time_at
active_step_evaluation_time now st = elim st.active_step_n [
  | none ↦ 0
  | some i ↦ eval_time_at now st.steps i
]

unfoldable pub is_empty : State → Bool
is_empty st = Step.is_empty st.mode_step && all Step.is_empty st.steps

unfoldable pub save : State → State
save st = record st { saved_active_steps = st.active_steps }

unfoldable pub load : State → State
load st = record st { active_steps = st.saved_active_steps }

unfoldable pub reset_eval_time : State → State
reset_eval_time st = record st { dx_step_time = 0 }

abbrev pub with_steps {ℓ} : {W : Type ℓ} → State → List Step × W → State × W
with_steps st (steps, w) = (record st { steps = steps }, w)

unfoldable pub add_dx_step_time : State → State
unfolding modify
add_dx_step_time st = elim st.active_step_n [
  | none ↦ st
  | some i ↦ record st { steps = modify (Step.set_dx_time st.dx_step_time) st.steps i }
]

-- An `int` that holds a `u_int` is positive only below 2 ^ 31.
abbrev pub int_is_positive : ℕ → Bool
int_is_positive t = ltb 0 t && ltb t (2 ^ 31)

module _ ⦃plant : Plant⦄ where
  open plant use {World, to_ms, to_u_int_value}

  -- steps[ i ]->init(); steps[ i ]->evaluate();
  unfoldable pub start_step : Env plant → ℕ → State → World → State × World
  unfolding step_at modify
  start_step env i st w =
      let started = modify (Step.init env (get_active_step_set_time st)) st.steps i in
      with_steps st (step_at (Step.evaluate env) started i w)

  unfoldable pub finalize_step : ℕ → State → World → State × World
  unfolding step_at
  finalize_step i st w = with_steps st (step_at Step.finalize st.steps i w)

  unfoldable pub finalize_active : State → World → State × World
  unfolding finalize_step
  finalize_active st w = elim st.active_step_n [ none ↦ (st, w) | some i ↦ finalize_step i st w ]

  -- The time of step `i`, in milliseconds, by its parameter.
  unfoldable pub step_time : Env plant → State → ℕ → ℕ
  step_time env st i =
      let par_n = get_or st.step_duration_par_ns i (negsuc 0) in
      if is_positive par_n then to_ms (env.par (pos_part par_n)) else 0

  unfoldable pub step_max_time : Env plant → State → ℕ → ℕ
  step_max_time env st i =
      let par_n = get_or st.step_max_duration_par_ns i (negsuc 0) in
      if is_positive par_n then to_u_int_value (env.par (pos_part par_n)) else 0

  -- The fields of `to_step` that name the new step.
  unfoldable pub select_step : Env plant → ℕ → State → State
  unfolding step_time
  select_step env i st = record st {
    active_step_n = some i;
    active_step_time = step_time env st i;
    active_step_next_step_n = get_or st.next_step_ns i (negsuc 0);
  }

  -- A step of zero duration is selected and not started.
  unfoldable pub is_started : Env plant → State → ℕ → Bool
  is_started env st i =
      int_is_positive (step_time env st i)
      || not (is_positive (get_or st.step_duration_par_ns i (negsuc 0)))

  unfoldable pub to_step : Env plant → ℕ → State → World → State × World
  unfolding finalize_active select_step start_step is_started
  to_step env zero st w = (st, w)
  to_step env (suc i) st w =
      let (shut, w') = finalize_active st w in
      let selected = select_step env i shut in
      if ltb i (length st.steps)
      then (if is_started env st i then start_step env i selected w' else (selected, w'))
      else (st, w)

  unfoldable pub to_next_step : Env plant → State → World → State × World
  unfolding to_step
  to_next_step env st w = elim st.active_step_n [
    | none ↦ (st, w)
    | some i ↦
        let next = get_or st.next_step_ns i (negsuc 0) in
        to_step env (if is_minus_one next then i + 2 else to_u_int next) st w
  ]

  unfoldable pub turn_off_active_step : State → World → State × World
  unfolding finalize_active
  turn_off_active_step st w =
      let (shut, w') = finalize_active st w in (record shut { active_step_n = none }, w')

  -- The loops over the extra steps; a number out of range is passed over.
  unfoldable pub init_extra : Env plant → ℕ → List ℕ → List Step → List Step
  unfolding modify
  init_extra env time [] steps = steps
  init_extra env time (zero ∷ extra) steps = init_extra env time extra steps
  init_extra env time (suc i ∷ extra) steps =
      init_extra env time extra (modify (Step.init env time) steps i)

  unfoldable pub finalize_extra : List ℕ → List Step → World → List Step × World
  unfolding step_at
  finalize_extra [] steps w = (steps, w)
  finalize_extra (zero ∷ extra) steps w = finalize_extra extra steps w
  finalize_extra (suc i ∷ extra) steps w =
      let (steps', w') = step_at Step.finalize steps i w in finalize_extra extra steps' w'

  unfoldable pub init : Env plant → ℕ → State → World → State × World
  unfolding to_step init_extra
  init env start st w =
      let begun = record st {
        mode_step = Step.init env (get_active_step_set_time st) st.mode_step;
        start_time = env.now;
        active_step_n = none;
      } in
      let (st', w') = to_step env start begun w in
      let steps = init_extra env (get_active_step_set_time st') st'.active_steps st'.steps in
      if is_nil st.steps then (begun, w) else (record st' { steps = steps }, w')

  -- The step of the whole state is finalized; the time of the active step is kept for its return.
  unfoldable pub stop_clock : Env plant → State → World → State × World
  stop_clock env st w =
      let (mode, w') = Step.finalize st.mode_step w in
      let dx_time : ℕ = elim st.active_step_n [
        | none ↦ st.dx_step_time
        | some _ ↦ active_step_evaluation_time env.now st
      ] in
      (record st { mode_step = mode; start_time = env.now; dx_step_time = dx_time }, w')

  unfoldable pub finalize : Env plant → State → World → State × World
  unfolding stop_clock finalize_active finalize_extra
  finalize env st w =
      let (stopped, w1) = stop_clock env st w in
      let (shut, w2) = finalize_active stopped w1 in
      let (steps, w3) = finalize_extra shut.active_steps shut.steps w2 in
      (record shut { steps = steps; active_step_n = none; active_steps = [] }, w3)
