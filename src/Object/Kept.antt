-- ===== src/Object/Kept.antt =====
-- What the calls of tech_object (PAC/common/tech_def.cpp) keep of an object: the number of its
-- operations and its bits.
use ptusa_main.Common.{ℕ, zero, suc, ◌≡◌, ◌<◌, refl, sym, ◌∙◌, ap, Bool, true, ◌&&◌, arith}
use mathlib.Core.Path.{subst}
use ptusa_main.Plant.{Plant, Env}
use ptusa_main.State.Evaluate.{Request, keep_on, off_mode}
use ptusa_main.State.Rounds.{both}
use ptusa_main.Operation.Mode.{idle}
use ptusa_main.Operation.Defs.{
  Operation, pause_operation, evaluate_current, start_kept, start_operation, stop_operation,
}
use ptusa_main.Operation.Machine.{execute, do_pause, execute-next_mode}
use ptusa_main.Operation.Steps.{check_devices_on_run_state}
use ptusa_main.Errors.Alarm.{MsgType, err_cant_on}
use ptusa_main.Object.Defs.{
  Object, Hooks, Code, NewMode, to_pause, to_stop, to_off, to_on, set_err_msg, mark, put_operation,
  turn_off, finish, call, pause_mode, stop_mode, start_again, start_new, set_mode_of, set_mode,
  check_operation_on,
}
use ptusa_main.Object.Auto.{change, set}
use ptusa_main.Object.Marked.{
  IsMarked, OwnMarked, to_others, to_marked, put_self, put-OthersMarked, set_err_msg-IsMarked,
}
use ptusa_main.Object.Calls.{off-OwnMarked, call-OthersMarked}
use ptusa_main.Object.SetMode.{call-count, set_mode-IsMarked}

-- The bits are right, and the number of the operations is the given one.
pub record Good (c : ℕ) (o : Object) : Type 0 where
  pub marked : IsMarked o
  pub count : o.operations_count ≡ c

pub set_err_msg-Good :
    (type : MsgType) (c : ℕ) (o : Object) → Good c o → Good c (set_err_msg type o)
unfolding set_err_msg
set_err_msg-Good type c o g = record {
  marked = set_err_msg-IsMarked type o g.marked;
  count = ground (arith, g.count);
}

pub change-Good :
    (f : Operation → Operation) (i c : ℕ) (o : Object)
    → ((op : Operation) → (f op).current_state ≡ op.current_state)
    → i < c
    → Good c o
    → Good c (change f (suc i) o)
change-Good f i c o keep h g = record {
  marked =
      to_marked i (change f (suc i) o)
        (put-OthersMarked i (f (o.operations (suc i))) o (to_others i o g.marked))
        (λ a. g.marked.marked i (subst (λ k. i < k) (sym g.count) h) (λ e. a (
          ap (λ q. q.current_state) (put_self i (f (o.operations (suc i))) o)
          ∙ keep (o.operations (suc i))
          ∙ e)));
  count = g.count;
}

module _ ⦃plant : Plant⦄ where
  open plant use {World}

  abbrev pub KeepsIdle : (Operation → World → Operation × World × Request) → Type 0
  KeepsIdle f =
      (op : Operation) (w : World) → op.current_state ≡ idle → (f op w).0.current_state ≡ idle

  called-OwnMarked :
      (env : Env plant) (hooks : Hooks plant) (i : ℕ) (o : Object) (r : Operation × World × Request)
      → OwnMarked i o
      → ((o.operations (suc i)).current_state ≡ idle → r.0.current_state ≡ idle)
      → OwnMarked i (finish env hooks (suc i) o r).0
  unfolding finish
  called-OwnMarked env hooks i o (op, w, keep_on) own keep a =
      own (λ e. a (ap (λ q. q.current_state) (put_self i op o) ∙ keep e))
  called-OwnMarked env hooks i o (op, w, off_mode) own keep a =
      off-OwnMarked env hooks i (put_operation (suc i) op o) w
        (λ b. own (λ e. b (ap (λ q. q.current_state) (put_self i op o) ∙ keep e))) a

  pub call-Good :
      (env : Env plant) (hooks : Hooks plant) (f : Operation → World → Operation × World × Request)
      (i c : ℕ) (o : Object) (w : World)
      → KeepsIdle f
      → i < c
      → Good c o
      → Good c (call env hooks f (suc i) o w).0
  unfolding call
  call-Good env hooks f i c o w keep h g = record {
    marked =
        to_marked i (finish env hooks (suc i) o (f (o.operations (suc i)) w)).0
          (call-OthersMarked env hooks f i o w (to_others i o g.marked))
          (called-OwnMarked env hooks i o (f (o.operations (suc i)) w)
            (g.marked.marked i (subst (λ k. i < k) (sym g.count) h))
            (keep (o.operations (suc i)) w));
    count = call-count env hooks f (suc i) o w ∙ g.count;
  }

  pub evaluate_current-KeepsIdle : (env : Env plant) → KeepsIdle (evaluate_current env)
  unfolding evaluate_current
  evaluate_current-KeepsIdle env op w e = e

  pub pause-KeepsIdle : (env : Env plant) → KeepsIdle (pause_operation env)
  unfolding execute
  pause-KeepsIdle env op w e = execute-next_mode env do_pause op w ∙ ground arith

  set_mode-count :
      (env : Env plant) (hooks : Hooks plant) (n : ℕ) (m : NewMode) (o : Object) (w : World)
      → (set_mode env hooks n m o w).0.operations_count ≡ o.operations_count
  unfolding set_mode set_mode_of pause_mode stop_mode start_again start_new turn_off set_err_msg
  set_mode-count env hooks zero m o w = refl
  set_mode-count env hooks (suc i) to_pause o w =
      ground (arith, call-count env hooks (pause_operation env) (suc i) (mark true (suc i) o) w)
  set_mode-count env hooks (suc i) to_stop o w =
      ground (arith, call-count env hooks (stop_operation env) (suc i) (mark true (suc i) o) w)
  set_mode-count env hooks (suc i) to_off o w = ground arith
  set_mode-count env hooks (suc i) to_on o w = ground (
    arith,
    call-count env hooks (start_kept env) (suc i) o w,
    call-count env hooks (start_operation env (hooks.lua_get_run_step_after_pause (suc i) w))
        (suc i) o w,
  )

  pub set-Good :
      (env : Env plant) (hooks : Hooks plant) (n c : ℕ) (m : NewMode) (o : Object) (w : World)
      → Good c o
      → Good c (set env hooks n m o w).0
  set-Good env hooks n c m o w g = record {
    marked = set_mode-IsMarked env hooks n m o w g.marked;
    count = set_mode-count env hooks n m o w ∙ g.count;
  }

  pub check-Good :
      (hooks : Hooks plant) (n c : ℕ) (b : Bool) (o : Object) (w : World)
      → Good c o
      → Good c (check_operation_on hooks n b o w).0
  unfolding check_operation_on
  check-Good hooks n c b o w g =
      both (λ (r : Object × Code). Good c r.0)
        (check_devices_on_run_state (o.operations n) w && hooks.is_check_mode n w)
        (both (Good c) b (set_err_msg-Good err_cant_on c o g) g) g
