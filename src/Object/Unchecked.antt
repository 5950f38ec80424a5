-- ===== src/Object/Unchecked.antt =====
-- set_mode( n, PAUSE ) of an operation that is off (PAC/common/tech_def.cpp).
use ptusa_main.Common.{ℕ, suc, ◌<◌, ◌≡◌, refl, ◌∙◌, ap, true, arith}
use ptusa_main.Plant.{Plant, Env}
use ptusa_main.State.Evaluate.{keep_on}
use ptusa_main.Operation.Mode.{idle}
use ptusa_main.Operation.Defs.{Operation, pause_operation, pause_in}
use ptusa_main.Object.Defs.{
  Object, Hooks, to_pause, is_zero, get_mode, mark, put_operation, finish, call, pause_mode,
  set_mode_of, set_mode,
}
use ptusa_main.Object.Marked.{IsMarked, to_others, mark-bit, put_self}

module _ ⦃plant : Plant⦄ where
  open plant use {World}

  pause_in_idle :
      (env : Env plant) (op : Operation) (w : World) → pause_in env idle op w ≡ (op, w, keep_on)
  unfolding pause_in
  pause_in_idle env op w = refl

  pause_idle :
      (env : Env plant) (op : Operation) (w : World)
      → op.current_state ≡ idle
      → pause_operation env op w ≡ (op, w, keep_on)
  unfolding pause_operation
  pause_idle env op w e = ap (λ m. pause_in env m op w) e ∙ pause_in_idle env op w

  get_mode-mark :
      (i : ℕ) (op : Operation) (o : Object)
      → IsMarked o
      → i < o.operations_count
      → get_mode (put_operation (suc i) op (mark true (suc i) o)) (suc i) ≡ true
  unfolding get_mode
  get_mode-mark i op o m h = ground (arith, mark-bit i true o h (to_others i o m))

  -- Where an operation of an object whose bits are right is idle, and the check in Lua does not
  -- refuse it, a pause by set_mode sets the bit of the operation and leaves it idle.
  pub set_mode-pause_idle :
      (env : Env plant) (hooks : Hooks plant) (i : ℕ) (o : Object) (w : World)
      → IsMarked o
      → i < o.operations_count
      → (o.operations (suc i)).current_state ≡ idle
      → is_zero (hooks.lua_check_on_pause (suc i) w) ≡ true
      → (get_mode (set_mode env hooks (suc i) to_pause o w).0 (suc i) ≡ true)
        × (((set_mode env hooks (suc i) to_pause o w).0.operations (suc i)).current_state ≡ idle)
  unfolding set_mode set_mode_of pause_mode call finish
  set_mode-pause_idle env hooks i o w m h e z =
      let op = o.operations (suc i) in
      let marked = mark true (suc i) o in
      let paused : call env hooks (pause_operation env) (suc i) marked w
          ≡ (put_operation (suc i) op marked, w) =
        ap (finish env hooks (suc i) marked) (pause_idle env op w e) in
      ground (arith, paused, get_mode-mark i op o m h, put_self i op marked)
