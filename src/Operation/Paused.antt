-- ===== src/Operation/Paused.antt =====
-- What a paused state keeps, and the state that is resumed from it, of operation_state
-- (PAC/common/operation_mngr.cpp).
use ptusa_main.Common.{
  ℕ, zero, suc, ◌≡◌, refl, ◌<◌, false, Option, none, some, List, [], ◌∷◌, length, is_nil, ap, ◌∙◌,
  lt→ltb, arith,
}
use ptusa_main.Common.Int.{pos, negsuc}
use ptusa_main.Plant.{Plant, Env}
use ptusa_main.Step
use ptusa_main.Step.{Step}
use ptusa_main.State.Defs
use ptusa_main.State.Defs.{
  State, step_at, modify, start_step, finalize_step, finalize_active, select_step, is_started,
  to_step, init_extra, finalize_extra, stop_clock, add_dx_step_time, active_step,
  active_step_evaluation_time, save, load, get_active_step_set_time,
}
use ptusa_main.State.Rounds.{both}
use ptusa_main.Operation.Defs.{resume_state, resumed_step, is_resumed}

-- The time that a step worked before the pause.
abbrev pub dx_time_at : List Step → ℕ → ℕ
dx_time_at [] i = 0
dx_time_at (s ∷ steps) zero = s.dx_time
dx_time_at (s ∷ steps) (suc i) = dx_time_at steps i

pub dx_time_at-modify :
    (t : ℕ) (steps : List Step) (i : ℕ)
    → i < length steps
    → dx_time_at (modify (Step.set_dx_time t) steps i) i ≡ t
unfolding modify Step.set_dx_time
dx_time_at-modify t [] i h = elim h [ ]
dx_time_at-modify t (s ∷ steps) zero h = refl
dx_time_at-modify t (s ∷ steps) (suc i) h = dx_time_at-modify t steps i (omega arith)

pub length-modify :
    (f : Step → Step) (steps : List Step) (i : ℕ) → length (modify f steps i) ≡ length steps
unfolding modify
length-modify f [] i = refl
length-modify f (s ∷ steps) zero = refl
length-modify f (s ∷ steps) (suc i) = ap suc (length-modify f steps i)

pub length-step_at {ℓ} :
    {W : Type ℓ} (f : Step → W → Step × W) (steps : List Step) (i : ℕ) (w : W)
    → length (step_at f steps i w).0 ≡ length steps
unfolding step_at
length-step_at f [] i w = refl
length-step_at f (s ∷ steps) zero w = refl
length-step_at f (s ∷ steps) (suc i) w = ap suc (length-step_at f steps i w)

pub not_nil : (steps : List Step) (i : ℕ) → i < length steps → is_nil steps ≡ false
not_nil [] i h = elim h [ ]
not_nil (s ∷ steps) i h = refl

module _ ⦃plant : Plant⦄ where
  open plant use {World}

  pub length-init_extra :
      (env : Env plant) (t : ℕ) (extra : List ℕ) (steps : List Step)
      → length (init_extra env t extra steps) ≡ length steps
  unfolding init_extra
  length-init_extra env t [] steps = refl
  length-init_extra env t (zero ∷ extra) steps = length-init_extra env t extra steps
  length-init_extra env t (suc i ∷ extra) steps =
      length-init_extra env t extra (modify (Step.init env t) steps i)
      ∙ length-modify (Step.init env t) steps i

  pub length-finalize_extra :
      (extra : List ℕ) (steps : List Step) (w : World)
      → length (finalize_extra extra steps w).0 ≡ length steps
  unfolding finalize_extra
  length-finalize_extra [] steps w = refl
  length-finalize_extra (zero ∷ extra) steps w = length-finalize_extra extra steps w
  length-finalize_extra (suc i ∷ extra) steps w =
      let shut = step_at Step.finalize steps i w in
      length-finalize_extra extra shut.0 shut.1 ∙ length-step_at Step.finalize steps i w

  pub length-finalize_active :
      (o : Option ℕ) (st : State) (w : World)
      → st.active_step_n ≡ o
      → length (finalize_active st w).0.steps ≡ length st.steps
  unfolding finalize_active finalize_step
  length-finalize_active none st w e = ground arith
  length-finalize_active (some i) st w e = ground (arith, length-step_at Step.finalize st.steps i w)

  pub length-start_step :
      (env : Env plant) (i : ℕ) (st : State) (w : World)
      → length (start_step env i st w).0.steps ≡ length st.steps
  unfolding start_step
  length-start_step env i st w =
      length-step_at (Step.evaluate env)
        (modify (Step.init env (get_active_step_set_time st)) st.steps i) i w
      ∙ length-modify (Step.init env (get_active_step_set_time st)) st.steps i

  pub finalize_active-none :
      (st : State) (w : World) → st.active_step_n ≡ none → finalize_active st w ≡ (st, w)
  unfolding finalize_active
  finalize_active-none st w e = ground arith

  -- `to_step` from no active step.
  pub record Moved (st : State) (i : ℕ) (r : State) : Type 0 where
    pub active : r.active_step_n ≡ some i
    pub extra : r.active_steps ≡ st.active_steps
    pub size : length r.steps ≡ length st.steps
    pub time : r.dx_step_time ≡ st.dx_step_time

  pub to_step-Moved :
      (env : Env plant) (i : ℕ) (st : State) (w : World)
      → st.active_step_n ≡ none
      → i < length st.steps
      → Moved st i (to_step env (suc i) st w).0
  unfolding to_step select_step
  to_step-Moved env i st w e h =
      rw (lt→ltb i (length st.steps) h, finalize_active-none st w e)
        (both (λ (r : State × World). Moved st i r.0) _
          (record {
            active = unfold start_step in refl;
            extra = unfold start_step in refl;
            size = length-start_step env i (select_step env i st) w;
            time = unfold start_step in refl;
          })
          (record { active = refl; extra = refl; size = refl; time = refl }))

  pub init-Moved :
      (env : Env plant) (i : ℕ) (st : State) (w : World)
      → i < length st.steps
      → Moved st i (Defs.init env (suc i) st w).0
  unfolding Defs.init
  init-Moved env i st w h =
      let begun : State = record st {
        mode_step = Step.init env (get_active_step_set_time st) st.mode_step;
        start_time = env.now;
        active_step_n = none;
      } in
      let moved = (to_step env (suc i) begun w).0 in
      let m = to_step-Moved env i begun w refl h in
      rw (not_nil st.steps i h) (record {
        active = m.active;
        extra = m.extra;
        size =
            length-init_extra env (get_active_step_set_time moved) moved.active_steps moved.steps
            ∙ m.size;
        time = m.time;
      })

  -- The extra steps, the steps and the time that a paused state keeps.
  pub record Kept (env : Env plant) (st : State) (r : State) : Type 0 where
    pub saved : r.saved_active_steps ≡ st.active_steps
    pub size : length r.steps ≡ length st.steps
    pub time : r.dx_step_time ≡ active_step_evaluation_time env.now st

  pub finalize_active-Kept :
      (o : Option ℕ) (st : State) (w : World)
      → st.active_step_n ≡ o
      → ((finalize_active st w).0.saved_active_steps ≡ st.saved_active_steps)
        × ((finalize_active st w).0.dx_step_time ≡ st.dx_step_time)
  unfolding finalize_active finalize_step
  finalize_active-Kept none st w e = ground arith
  finalize_active-Kept (some i) st w e = ground arith

  pub stop_clock-Kept :
      (env : Env plant) (i : ℕ) (st : State) (w : World)
      → st.active_step_n ≡ some i
      → ((stop_clock env st w).0.saved_active_steps ≡ st.saved_active_steps)
        × ((stop_clock env st w).0.dx_step_time ≡ active_step_evaluation_time env.now st)
        × ((stop_clock env st w).0.steps ≡ st.steps)
  unfolding stop_clock
  stop_clock-Kept env i st w e = (refl, ground arith, refl)

  pub save-Kept :
      (env : Env plant) (i : ℕ) (st : State) (w : World)
      → st.active_step_n ≡ some i
      → Kept env st (Defs.finalize env (save st) w).0
  unfolding Defs.finalize
  save-Kept env i st w e =
      let stopped = stop_clock env (save st) w in
      let shut = finalize_active stopped.0 stopped.1 in
      let clock = stop_clock-Kept env i (save st) w (unfold save in e) in
      let kept = finalize_active-Kept stopped.0.active_step_n stopped.0 stopped.1 refl in
      record {
        saved = kept.0 ∙ clock.0 ∙ unfold save in refl;
        size =
            length-finalize_extra shut.0.active_steps shut.0.steps shut.1
            ∙ length-finalize_active stopped.0.active_step_n stopped.0 stopped.1 refl
            ∙ ap length clock.2
            ∙ unfold save in refl;
        time = kept.1 ∙ clock.1 ∙ unfold save active_step_evaluation_time in refl;
      }

  -- A state that was left in step `i`, with extra steps, is taken up in that step, with those extra
  -- steps and with the time that the step had worked.
  pub record Resumed (env : Env plant) (st : State) (i : ℕ) (r : State) : Type 0 where
    pub active : r.active_step_n ≡ some i
    pub extra : r.active_steps ≡ st.active_steps
    pub time : dx_time_at r.steps i ≡ active_step_evaluation_time env.now st

  pub add_dx-Resumed :
      (env : Env plant) (i : ℕ) (st r : State)
      → r.active_step_n ≡ some i
      → r.active_steps ≡ st.active_steps
      → r.dx_step_time ≡ active_step_evaluation_time env.now st
      → i < length r.steps
      → Resumed env st i (add_dx_step_time r)
  unfolding add_dx_step_time
  add_dx-Resumed env i st r a x t h =
      let timed = dx_time_at-modify r.dx_step_time r.steps i h in
      record { active = ground arith; extra = ground arith; time = ground (arith, timed) }

  pub resume_state-Resumed :
      (env env' : Env plant) (i : ℕ) (st r : State) (w : World)
      → Kept env st r
      → i < length st.steps
      → Resumed env st i (resume_state env' (negsuc 0) (pos (suc i)) r w).0
  unfolding resume_state resumed_step is_resumed
  resume_state-Resumed env env' i st r w k h =
      let begun = (Defs.init env' (suc i) (load r) w).0 in
      let m = init-Moved env' i (load r) w (unfold load in rw k.size h) in
      rw (lt→ltb 0 (suc i) (omega arith)) (
        add_dx-Resumed env i st begun m.active (m.extra ∙ unfold load in k.saved)
          (m.time ∙ unfold load in k.time) (rw m.size (unfold load in rw k.size h)))
