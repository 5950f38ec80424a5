-- ===== src/Object/Rounds.antt =====
-- The bits of tech_object::state over its rounds of evaluation (PAC/common/tech_def.cpp).
use ptusa_main.Common.{
  ℕ, zero, suc, ◌+◌, ◌<◌, ◌≤◌, refl, Bool, true, false, Option, none, some, ltb, arith,
}
use ptusa_main.Common.Int.{ℤ}
use ptusa_main.Plant.{Plant, Env, get_delta_millisec}
use ptusa_main.State.Rounds.{both}
use ptusa_main.State.Checks.{is_goto_next_state}
use ptusa_main.Operation.Mode.{Mode, idle, run, starting, pausing, unpausing, stopping, is_mode}
use ptusa_main.Operation.Defs.{pause_operation, evaluate_current}
use ptusa_main.Operation.Steps.{check_steps_params}
use ptusa_main.Errors.Alarm.{err_cant_on, err_during_work, err_to_fail_state}
use ptusa_main.Object.Defs.{
  Object, Hooks, NewMode, to_pause, to_stop, to_on, is_done, set_err_msg, call, set_mode,
  check_operation_on,
}
use ptusa_main.Object.Auto.{
  Settings, waiting, warned, failed, unasked, is_int, set, first_switch_on, warn, give_up,
  process_auto_switch_on, process_new_state_from_run, default_process_new_state, go_to, react,
  evaluate_operation,
}
use ptusa_main.Object.Evaluate.{
  fail_pause, fail_if, check_devices, check_time, check_steps, has_failed, is_late, evaluate_number,
  evaluate_from, evaluate,
}
use ptusa_main.Object.Marked.{IsMarked}
use ptusa_main.Object.Kept.{
  Good, set_err_msg-Good, change-Good, call-Good, evaluate_current-KeepsIdle, pause-KeepsIdle,
  set-Good, check-Good,
}

module _ ⦃plant : Plant⦄ where
  open plant use {World}

  first-Good :
      (env : Env plant) (hooks : Hooks plant) (i c : ℕ) (o : Object) (w : World)
      → i < c
      → Good c o
      → Good c (first_switch_on env hooks (suc i) o w).0
  unfolding first_switch_on
  first-Good env hooks i c o w h g =
      let o' = (set_mode env hooks (suc i) to_on o w).0 in
      let set = set-Good env hooks (suc i) c to_on o w g in
      both (λ (r : Object × World). Good c r.0) (is_done (set_mode env hooks (suc i) to_on o w).2)
        (set_err_msg-Good err_during_work c o' set)
        (change-Good (waiting env.now) i c (set_err_msg err_cant_on o') (λ op. refl) h
          (set_err_msg-Good err_cant_on c o' set))

  warn-Good :
      (env : Env plant) (hooks : Hooks plant) (s : Settings) (i c : ℕ) (o : Object) (w : World)
      → i < c
      → Good c o
      → Good c (warn env hooks s (suc i) o w)
  unfolding warn
  warn-Good env hooks s i c o w h g =
      let o' = (check_operation_on hooks (suc i) true o w).0 in
      both (Good c)
        (ltb s.auto_operation_warn_time
          (get_delta_millisec env.now (o.operations (suc i)).start_warn))
        (change-Good (warned env.now) i c (set_err_msg err_cant_on o') (λ op. refl) h
          (set_err_msg-Good err_cant_on c o' (check-Good hooks (suc i) c true o w g)))
        g

  give_up-Good :
      (env : Env plant) (s : Settings) (i c : ℕ) (o : Object)
      → i < c
      → Good c o
      → Good c (give_up env s (suc i) o)
  unfolding give_up
  give_up-Good env s i c o h g =
      both (Good c)
        (ltb s.auto_operation_wait_time
          (get_delta_millisec env.now (o.operations (suc i)).start_wait))
        (change-Good failed i c (set_err_msg err_cant_on o) (λ op. refl) h
          (set_err_msg-Good err_cant_on c o g))
        g

  auto-Good :
      (env : Env plant) (hooks : Hooks plant) (s : Settings) (i c : ℕ) (o : Object) (w : World)
      → i < c
      → Good c o
      → Good c (process_auto_switch_on env hooks s (suc i) o w).0
  unfolding process_auto_switch_on
  auto-Good env hooks s i c o w h g =
      let (o1, res) = check_operation_on hooks (suc i) false o w in
      let checked : Good c o1 = check-Good hooks (suc i) c false o w g in
      let warned = warn-Good env hooks s i c o1 w h checked in
      both (λ (r : Object × World). Good c r.0) (o.operations (suc i)).was_fail g
        (both (λ (r : Object × World). Good c r.0) (o.operations (suc i)).is_first_goto_next_state
          (first-Good env hooks i c o w h g)
          (both (λ (r : Object × World). Good c r.0) (is_done res)
            (set-Good env hooks (suc i) c to_on (set_err_msg err_during_work o1) w
              (set_err_msg-Good err_during_work c o1 checked))
            (give_up-Good env s i c (warn env hooks s (suc i) o1 w) h warned)))

  from_run-Good :
      (env : Env plant) (hooks : Hooks plant) (n c : ℕ) (next : ℤ) (o : Object) (w : World)
      → Good c o
      → Good c (process_new_state_from_run env hooks n next o w).0
  unfolding process_new_state_from_run
  from_run-Good env hooks n c next o w g =
      both (λ (r : Object × World). Good c r.0) (is_int next 3)
        (set-Good env hooks n c to_stop (set_err_msg err_during_work o) w
          (set_err_msg-Good err_during_work c o g))
        (both (λ (r : Object × World). Good c r.0) (is_int next 2)
          (set_err_msg-Good err_to_fail_state c (set env hooks n to_pause o w).0
            (set-Good env hooks n c to_pause o w g))
          g)

  default-Good :
      (env : Env plant) (hooks : Hooks plant) (n c : ℕ) (next : ℤ) (k : ℕ) (m : NewMode)
      (o : Object) (w : World)
      → Good c o
      → Good c (default_process_new_state env hooks n next k m o w).0
  unfolding default_process_new_state
  default-Good env hooks n c next k m o w g =
      both (λ (r : Object × World). Good c r.0) (is_int next 3)
        (set-Good env hooks n c to_stop (set_err_msg err_during_work o) w
          (set_err_msg-Good err_during_work c o g))
        (both (λ (r : Object × World). Good c r.0) (is_int next k) (set-Good env hooks n c m o w g)
          g)

  go_to-Good :
      (env : Env plant) (hooks : Hooks plant) (s : Settings) (i c : ℕ) (m : Mode) (next : ℤ)
      (o : Object) (w : World)
      → i < c
      → Good c o
      → Good c (go_to env hooks s (suc i) m next o w).0
  unfolding go_to
  go_to-Good env hooks s i c idle next o w h g = auto-Good env hooks s i c o w h g
  go_to-Good env hooks s i c run next o w h g = from_run-Good env hooks (suc i) c next o w g
  go_to-Good env hooks s i c starting next o w h g =
      default-Good env hooks (suc i) c next 1 to_on o w g
  go_to-Good env hooks s i c pausing next o w h g =
      default-Good env hooks (suc i) c next 2 to_pause o w g
  go_to-Good env hooks s i c unpausing next o w h g =
      default-Good env hooks (suc i) c next 1 to_on o w g
  go_to-Good env hooks s i c stopping next o w h g = set-Good env hooks (suc i) c to_stop o w g
  go_to-Good env hooks s i c _ next o w h g = g

  react-Good :
      (env : Env plant) (hooks : Hooks plant) (s : Settings) (i c : ℕ) (next : Option ℤ)
      (o : Object) (w : World)
      → i < c
      → Good c o
      → Good c (react env hooks s (suc i) next o w).0
  unfolding react
  react-Good env hooks s i c none o w h g = change-Good unasked i c o (λ op. refl) h g
  react-Good env hooks s i c (some next) o w h g =
      go_to-Good env hooks s i c (o.operations (suc i)).current_state next o w h g

  operation-Good :
      (env : Env plant) (hooks : Hooks plant) (s : Settings) (i c : ℕ) (o : Object) (w : World)
      → i < c
      → Good c o
      → Good c (evaluate_operation env hooks s (suc i) o w).0
  unfolding evaluate_operation
  operation-Good env hooks s i c o w h g =
      let (o', w') = call env hooks (evaluate_current env) (suc i) o w in
      let op = o'.operations (suc i) in
      react-Good env hooks s i c (is_goto_next_state (op.states op.current_state) w') o' w' h
        (call-Good env hooks (evaluate_current env) i c o w (evaluate_current-KeepsIdle env) h g)

  fail_if-Good :
      (b : Bool) (env : Env plant) (hooks : Hooks plant) (i c : ℕ) (r : Object × World)
      → i < c
      → Good c r.0
      → Good c (fail_if b env hooks (suc i) r).0
  unfolding fail_pause
  fail_if-Good true env hooks i c (o, w) h g =
      call-Good env hooks (pause_operation env) i c (set_err_msg err_to_fail_state o) w
        (pause-KeepsIdle env) h (set_err_msg-Good err_to_fail_state c o g)
  fail_if-Good false env hooks i c r h g = g

  number-Good :
      (env : Env plant) (hooks : Hooks plant) (s : Settings) (i c : ℕ) (o : Object) (w : World)
      → i < c
      → Good c o
      → Good c (evaluate_number env hooks s (suc i) o w).0
  unfolding evaluate_number check_devices check_time check_steps
  number-Good env hooks s i c o w h g =
      let evaluated = operation-Good env hooks s i c o w h g in
      let r = evaluate_operation env hooks s (suc i) o w in
      let paused = fail_if-Good (has_failed hooks s (suc i) r.0 r.1) env hooks i c r h evaluated in
      let r' = check_devices env hooks s (suc i) r in
      let op = r'.0.operations (suc i) in
      let p = fail_if (check_steps_params env op) env hooks (suc i) r' in
      both (λ (x : Object × World). Good c x.0) (is_mode op.current_state run)
        (fail_if-Good (is_late env (suc i) p.0) env hooks i c p h
          (fail_if-Good (check_steps_params env op) env hooks i c r' h paused))
        paused

  from-Good :
      (env : Env plant) (hooks : Hooks plant) (s : Settings) (rounds i c : ℕ) (o : Object)
      (w : World)
      → i + rounds ≤ c
      → Good c o
      → Good c (evaluate_from env hooks s rounds (suc i) o w).0
  unfolding evaluate_from
  from-Good env hooks s zero i c o w h g = g
  from-Good env hooks s (suc rounds) i c o w h g =
      let (o', w') = evaluate_number env hooks s (suc i) o w in
      from-Good env hooks s rounds (suc i) c o' w' (omega (arith, h))
        (number-Good env hooks s i c o w (omega (arith, h)) g)

  -- A round of evaluation of a technological object, over all its operations, with the automatic
  -- changes of their states and the pauses on failed devices, wrong parameters and late steps,
  -- keeps the bit of every operation that is not idle set, and enough bits for the operations.
  pub evaluate-IsMarked :
      (env : Env plant) (hooks : Hooks plant) (s : Settings) (o : Object) (w : World)
      → IsMarked o
      → IsMarked (evaluate env hooks s o w).0
  unfolding evaluate
  evaluate-IsMarked env hooks s o w m =
      (from-Good env hooks s o.operations_count 0 o.operations_count o w (omega arith)
        (record { marked = m; count = refl })).marked
