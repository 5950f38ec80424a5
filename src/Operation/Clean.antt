-- ===== src/Operation/Clean.antt =====
-- When an operation is clean (PAC/common/operation_mngr.cpp): the states that it is not in, and the
-- steps that are on, with the moves between states.
use ptusa_main.Common.{
  ℕ, Option, none, some, ◌≡◌, refl, ◌≢◌, sym, ◌∙◌, Bool, true, false, if◌then◌else◌,
}
use mathlib.Core.Path.{subst}
use ptusa_main.Common.Int.{ℤ}
use ptusa_main.Plant.{Plant, Env}
use ptusa_main.State.Defs
use ptusa_main.State.Defs.{State}
use ptusa_main.State.Tracked.{IsTracked, IsQuiet, init-IsTracked, finalize-IsQuiet}
use ptusa_main.State.Activity.{is_on-dx_time}
use ptusa_main.State.Rounds.{evaluate-IsTracked}
use ptusa_main.Operation.Mode.{Mode, run, unpausing, update, update_self, update_ne, Mode-discrete}
use ptusa_main.Operation.Defs.{
  Operation, put, on_state, leave, enter, evaluate_current, enter_and_evaluate, leave_run,
  resumed_step, is_resumed, resume_state, resume, to_run_state,
}

-- All states but `m` are finalized. UNPAUSING is left out: `start` leaves it as it is.
abbrev pub OthersQuiet : Mode → (Mode → State) → Type 0
OthersQuiet c states = (m : Mode) → m ≢ c → m ≢ unpausing → IsQuiet (states m)

abbrev pub AllQuiet : (Mode → State) → Type 0
AllQuiet states = (m : Mode) → m ≢ unpausing → IsQuiet (states m)

-- Between two calls: the other states are finalized, and the current one has no step on unattended.
pub record IsClean (op : Operation) : Type 0 where
  pub others : OthersQuiet op.current_state op.states
  pub current : op.current_state ≢ unpausing → IsTracked (op.states op.current_state)

pub update-OthersQuiet :
    (c : Mode) (st : State) (states : Mode → State)
    → OthersQuiet c states
    → OthersQuiet c (update c st states)
update-OthersQuiet c st states h m ne nu =
    rw (update_ne c m st states (λ e. ne (sym e))) (h m ne nu)

pub update-AllQuiet :
    (c : Mode) (st : State) (states : Mode → State)
    → OthersQuiet c states
    → (c ≢ unpausing → IsQuiet st)
    → AllQuiet (update c st states)
update-AllQuiet c st states h q m nu = elim (Mode-discrete c m) [
  | yes e ↦
      subst (λ k. IsQuiet (update c st states k)) e
        (rw (update_self c st states) (q (λ u. nu (sym e ∙ u))))
  | no ne ↦ rw (update_ne c m st states ne) (h m (λ e. ne (sym e)) nu)
]

pub put-IsClean :
    (c : Mode) (st : State) (op : Operation)
    → op.current_state ≡ c
    → OthersQuiet c op.states
    → (c ≢ unpausing → IsTracked st)
    → IsClean (put c st op)
put-IsClean c st op e h t = record {
  others =
      subst (λ k. OthersQuiet k (update c st op.states)) (sym e)
        (update-OthersQuiet c st op.states h);
  current =
      subst (λ k. k ≢ unpausing → IsTracked (update c st op.states k)) (sym e)
        (λ nu. rw (update_self c st op.states) (t nu));
}

pub timed-IsClean : (op : Operation) (t : ℕ) → IsClean op → IsClean (record op { run_time = t })
timed-IsClean op t h = record { others = h.others; current = h.current }

pub reset-IsQuiet : (st : State) → IsQuiet st → IsQuiet (Defs.reset_eval_time st)
unfolding Defs.reset_eval_time
reset-IsQuiet st q = record {
  all_off = q.all_off;
  mode_off = q.mode_off;
  no_active = q.no_active;
  no_extra = q.no_extra;
}

module _ ⦃plant : Plant⦄ where
  open plant use {World}

  pub dx_time-IsTracked :
      (o : Option ℕ) (st : State)
      → st.active_step_n ≡ o
      → IsTracked st
      → IsTracked (Defs.add_dx_step_time st)
  unfolding Defs.add_dx_step_time
  dx_time-IsTracked none st e t = rw (e, Defs.add_dx_step_time) t
  dx_time-IsTracked (some i) st e t =
      rw (e, Defs.add_dx_step_time)
        (λ j h. t j (sym (is_on-dx_time st.dx_step_time st.steps i j) ∙ h))

  pub leave-AllQuiet :
      (env : Env plant) (op : Operation) (w : World)
      → IsClean op
      → AllQuiet (leave env op.current_state op w).0.states
  unfolding leave on_state
  leave-AllQuiet env op w h =
      update-AllQuiet op.current_state _ op.states h.others
        (λ nu. finalize-IsQuiet env (op.states op.current_state) w (h.current nu))

  pub enter-IsClean :
      (env : Env plant) (m : Mode) (op : Operation) (w : World)
      → AllQuiet op.states
      → IsClean (enter env m op w).0
  unfolding enter on_state
  enter-IsClean env m op w h =
      put-IsClean m _ (record op { current_state = m }) refl (λ k _ nu. h k nu)
        (λ nu. init-IsTracked env 1 (op.states m) w (h m nu).all_off)

  pub evaluate_current-IsClean :
      (env : Env plant) (op : Operation) (w : World)
      → IsClean op
      → IsClean (evaluate_current env op w).0
  unfolding evaluate_current
  evaluate_current-IsClean env op w h =
      put-IsClean op.current_state _ op refl h.others
        (λ nu. evaluate-IsTracked env (op.states op.current_state) w (h.current nu))

  pub enter_and_evaluate-IsClean :
      (env : Env plant) (m : Mode) (op : Operation) (w : World)
      → AllQuiet op.states
      → IsClean (enter_and_evaluate env m op w).0
  unfolding enter_and_evaluate
  enter_and_evaluate-IsClean env m op w h =
      evaluate_current-IsClean env (enter env m op w).0 (enter env m op w).1
        (enter-IsClean env m op w h)

  pub resume_state-IsTracked :
      (env : Env plant) (new old : ℤ) (st : State) (w : World)
      → IsQuiet st
      → IsTracked (resume_state env new old st w).0
  unfolding resume_state Defs.load Defs.add_dx_step_time
  resume_state-IsTracked env new old st w q =
      let begun = Defs.init env (resumed_step new old) (Defs.load st) w in
      resumed begun.0 (is_resumed new old)
        (init-IsTracked env (resumed_step new old) (Defs.load st) w q.all_off)
    where
      resumed :
          (s : State) (b : Bool)
          → IsTracked s
          → IsTracked (if b then Defs.add_dx_step_time s else s)
      resumed s false t = t
      resumed s true t = dx_time-IsTracked s.active_step_n s refl t

  pub to_run_state-IsClean :
      (env : Env plant) (step : ℤ) (op : Operation) (w : World)
      → AllQuiet op.states
      → IsClean (to_run_state env step op w).0
  unfolding to_run_state resume on_state
  to_run_state-IsClean env step op w h =
      evaluate_current-IsClean env (resume env step op w).0 (resume env step op w).1 (
        put-IsClean run _ (record op { current_state = run }) refl (λ k _ nu. h k nu)
          (λ nu. resume_state-IsTracked env step op.run_step (op.states run) w (h run nu)))

  pub leave_run-AllQuiet :
      (env : Env plant) (op : Operation) (w : World)
      → op.current_state ≡ run
      → IsClean op
      → AllQuiet (leave_run env op w).0.states
  unfolding leave_run on_state Defs.save
  leave_run-AllQuiet env op w e h =
      update-AllQuiet run _ op.states (subst (λ k. OthersQuiet k op.states) e h.others) (λ nu.
        finalize-IsQuiet env (Defs.save (op.states run)) w
          (subst (λ k. IsTracked (op.states k)) e (h.current (λ u. nu (sym e ∙ u)))))
