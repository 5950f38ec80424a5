-- ===== src/Object/SetMode.antt =====
-- The bits of tech_object::state over set_mode (PAC/common/tech_def.cpp).
use ptusa_main.Common.{
  ℕ, zero, suc, ◌≡◌, ◌<◌, refl, sym, true, ◌&&◌, inl, inr, Bool-cases, ltb, if◌then◌else◌, arith,
}
use mathlib.Core.Path.{subst}
use ptusa_main.Plant.{Plant, Env}
use ptusa_main.State.Rounds.{both}
use ptusa_main.State.Evaluate.{Request, keep_on, off_mode}
use ptusa_main.Operation.Mode.{run, is_mode}
use ptusa_main.Operation.Defs.{
  Operation, pause_operation, stop_operation, start_operation, start_kept,
}
use ptusa_main.Operation.Steps.{check_devices_on_run_state}
use ptusa_main.Errors.Alarm.{err_cant_on, err_on_with_errors}
use ptusa_main.Object.Bits.{get_bit}
use ptusa_main.Object.Defs.{
  Object, Hooks, Code, NewMode, to_pause, to_stop, to_off, to_on, is_zero, set_err_msg, get_mode,
  mark, turn_off, off, finish, call, pause_mode, stop_mode, start_again, start_new, set_mode_of,
  set_mode,
}
use ptusa_main.Object.Marked.{
  OthersMarked, IsMarked, to_others, to_marked, mark-OthersMarked, mark-bit, set_err_msg-IsMarked,
}
use ptusa_main.Object.Calls.{
  turn_off-OthersMarked, turn_off-OwnMarked, get_mode-bit, call-OthersMarked, call-IsMarked,
  call-mark-IsMarked,
}

module _ ⦃plant : Plant⦄ where
  open plant use {World}

  pause_mode-IsMarked :
      (env : Env plant) (hooks : Hooks plant) (i : ℕ) (o : Object) (w : World)
      → i < o.operations_count
      → IsMarked o
      → IsMarked (pause_mode env hooks (suc i) o w).0
  unfolding pause_mode
  pause_mode-IsMarked env hooks i o w h m =
      elim (Bool-cases (is_zero (hooks.lua_check_on_pause (suc i) w))) [
        | inl e ↦ rw e (call-mark-IsMarked env hooks (pause_operation env) i o w h m)
        | inr e ↦ rw e m
      ]

  stop_mode-IsMarked :
      (env : Env plant) (hooks : Hooks plant) (i : ℕ) (o : Object) (w : World)
      → i < o.operations_count
      → IsMarked o
      → IsMarked (stop_mode env hooks (suc i) o w).0
  unfolding stop_mode
  stop_mode-IsMarked env hooks i o w h m =
      elim (Bool-cases (is_zero (hooks.lua_check_on_stop (suc i) w))) [
        | inl e ↦ rw e (call-mark-IsMarked env hooks (stop_operation env) i o w h m)
        | inr e ↦ rw e m
      ]

  start_again-IsMarked :
      (env : Env plant) (hooks : Hooks plant) (i : ℕ) (o : Object) (w : World)
      → get_bit o.state i ≡ true
      → IsMarked o
      → IsMarked (start_again env hooks (suc i) o w).0
  unfolding start_again
  start_again-IsMarked env hooks i o w b m =
      let step = hooks.lua_get_run_step_after_pause (suc i) w in
      let started = call-IsMarked env hooks (start_operation env step) i o w (to_others i o m) b in
      both (λ (r : Object × World × Code). IsMarked r.0)
        (is_mode (o.operations (suc i)).current_state run) m
        (both (λ (r : Object × World × Code). IsMarked r.0)
          (is_zero (hooks.lua_check_on_start (suc i) w)) started m)

  timed-IsMarked :
      (o : Object) (t : ℕ) → IsMarked o → IsMarked (record o { active_operation_or_idle_time = t })
  timed-IsMarked o t m = record { sized = m.sized; marked = m.marked }

  pub called-count :
      (env : Env plant) (hooks : Hooks plant) (n : ℕ) (o : Object) (r : Operation × World × Request)
      → (finish env hooks n o r).0.operations_count ≡ o.operations_count
  unfolding finish off turn_off
  called-count env hooks n o (op, w, keep_on) = refl
  called-count env hooks n o (op, w, off_mode) = ground arith

  pub call-count :
      (env : Env plant) (hooks : Hooks plant) (f : Operation → World → Operation × World × Request)
      (n : ℕ) (o : Object) (w : World)
      → (call env hooks f n o w).0.operations_count ≡ o.operations_count
  unfolding call
  call-count env hooks f n o w = called-count env hooks n o (f (o.operations n) w)

  start_new-IsMarked :
      (env : Env plant) (hooks : Hooks plant) (i : ℕ) (o : Object) (w : World)
      → i < o.operations_count
      → IsMarked o
      → IsMarked (start_new env hooks (suc i) o w).0
  unfolding start_new
  start_new-IsMarked env hooks i o w h m =
      let o1 = (call env hooks (start_kept env) (suc i) o w).0 in
      let others : OthersMarked i o1 =
        call-OthersMarked env hooks (start_kept env) i o w (to_others i o m) in
      let on = mark true (suc i) o1 in
      let bit =
        mark-bit i true o1
          (subst (λ k. i < k) (sym (call-count env hooks (start_kept env) (suc i) o w)) h) others in
      let marked : IsMarked on = to_marked i on (mark-OthersMarked i true o1 others) (λ _. bit) in
      let is_dev_err = check_devices_on_run_state (o.operations (suc i)) w in
      let told =
        both IsMarked is_dev_err (set_err_msg-IsMarked err_on_with_errors on marked) marked in
      both (λ (r : Object × World × Code). IsMarked r.0)
        (is_dev_err && hooks.is_check_mode (suc i) w) (set_err_msg-IsMarked err_cant_on o m)
        (both (λ (r : Object × World × Code). IsMarked r.0)
          (is_zero (hooks.lua_check_on_mode (suc i) w))
          (timed-IsMarked (if is_dev_err then set_err_msg err_on_with_errors on else on) env.now
            told)
          m)

  pub set_mode_of-IsMarked :
      (env : Env plant) (hooks : Hooks plant) (i : ℕ) (m : NewMode) (o : Object) (w : World)
      → i < o.operations_count
      → IsMarked o
      → IsMarked (set_mode_of env hooks (suc i) m o w).0
  unfolding set_mode_of
  set_mode_of-IsMarked env hooks i to_pause o w h k = pause_mode-IsMarked env hooks i o w h k
  set_mode_of-IsMarked env hooks i to_stop o w h k = stop_mode-IsMarked env hooks i o w h k
  set_mode_of-IsMarked env hooks i to_off o w h k =
      both (λ (r : Object × World × Code). IsMarked r.0) (get_mode o (suc i))
        (to_marked i (turn_off env hooks (suc i) o w).0
          (turn_off-OthersMarked env hooks i o w (to_others i o k))
          (turn_off-OwnMarked env hooks i o w (k.marked i h)))
        k
  set_mode_of-IsMarked env hooks i to_on o w h k = elim (Bool-cases (get_mode o (suc i))) [
    | inl e ↦ rw e (start_again-IsMarked env hooks i o w (get_mode-bit o i e) k)
    | inr e ↦ rw e (start_new-IsMarked env hooks i o w h k)
  ]

  -- set_mode, with any number of an operation, any mode and whatever the checks in Lua answer,
  -- keeps the bit of every operation that is not idle set, and enough bits for the operations.
  pub set_mode-IsMarked :
      (env : Env plant) (hooks : Hooks plant) (n : ℕ) (m : NewMode) (o : Object) (w : World)
      → IsMarked o
      → IsMarked (set_mode env hooks n m o w).0
  unfolding set_mode
  set_mode-IsMarked env hooks zero m o w k = k
  set_mode-IsMarked env hooks (suc i) m o w k = elim (Bool-cases (ltb o.operations_count (suc i))) [
    | inl e ↦ rw e k
    | inr e ↦ rw e (set_mode_of-IsMarked env hooks i m o w (ground arith) k)
  ]
