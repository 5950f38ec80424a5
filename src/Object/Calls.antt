-- ===== src/Object/Calls.antt =====
-- The bits of tech_object::state over the calls of one operation (PAC/common/tech_def.cpp).
use ptusa_main.Common.{ℕ, suc, ◌≡◌, ◌<◌, ◌∙◌, ap, true, false, inl, inr, Bool-cases, arith}
use ptusa_main.Common.Int.{is_positive}
use ptusa_main.Plant.{Plant, Env}
use ptusa_main.State.Evaluate.{Request, keep_on, off_mode}
use ptusa_main.Operation.Mode.{idle}
use ptusa_main.Operation.Defs.{Operation, finalize}
use ptusa_main.Operation.Machine.{execute, do_finalize, execute-next_mode}
use ptusa_main.Object.Bits.{get_bit}
use ptusa_main.Object.Defs.{
  Object, Hooks, get_mode, mark, put_operation, turn_off, off, finish, call,
}
use ptusa_main.Object.Marked.{
  OthersMarked, IsMarked, OwnMarked, to_others, to_marked, mark-OthersMarked, mark-bit, put_self,
  put-OthersMarked,
}

module _ ⦃plant : Plant⦄ where
  open plant use {World}

  pub finalize-idle :
      (env : Env plant) (op : Operation) (w : World) → (finalize env op w).0.current_state ≡ idle
  unfolding execute
  finalize-idle env op w = execute-next_mode env do_finalize op w

  pub turn_off-OthersMarked :
      (env : Env plant) (hooks : Hooks plant) (i : ℕ) (o : Object) (w : World)
      → OthersMarked i o
      → OthersMarked i (turn_off env hooks (suc i) o w).0
  unfolding turn_off
  turn_off-OthersMarked env hooks i o w m =
      let op = (finalize env (o.operations (suc i)) w).0 in
      let off = put-OthersMarked i op (mark false (suc i) o) (mark-OthersMarked i false o m) in
      elim (Bool-cases (is_positive (hooks.lua_check_off_mode (suc i) w))) [
        | inl e ↦ rw e m
        | inr e ↦ rw e (record { sized = off.sized; others = off.others })
      ]

  pub turn_off-OwnMarked :
      (env : Env plant) (hooks : Hooks plant) (i : ℕ) (o : Object) (w : World)
      → OwnMarked i o
      → OwnMarked i (turn_off env hooks (suc i) o w).0
  unfolding turn_off
  turn_off-OwnMarked env hooks i o w own =
      let op = (finalize env (o.operations (suc i)) w).0 in
      elim (Bool-cases (is_positive (hooks.lua_check_off_mode (suc i) w))) [
        | inl e ↦ rw e own
        | inr e ↦ rw e (λ a. absurd (
            a (
              ap (λ q. q.current_state) (put_self i op (mark false (suc i) o))
              ∙ finalize-idle env (o.operations (suc i)) w)))
      ]

  pub off-OthersMarked :
      (env : Env plant) (hooks : Hooks plant) (i : ℕ) (o : Object) (w : World)
      → OthersMarked i o
      → OthersMarked i (off env hooks (suc i) o w).0
  unfolding off
  off-OthersMarked env hooks i o w m = elim (Bool-cases (get_mode o (suc i))) [
    | inl e ↦ rw e (turn_off-OthersMarked env hooks i o w m)
    | inr e ↦ rw e m
  ]

  pub off-OwnMarked :
      (env : Env plant) (hooks : Hooks plant) (i : ℕ) (o : Object) (w : World)
      → OwnMarked i o
      → OwnMarked i (off env hooks (suc i) o w).0
  unfolding off
  off-OwnMarked env hooks i o w own = elim (Bool-cases (get_mode o (suc i))) [
    | inl e ↦ rw e (turn_off-OwnMarked env hooks i o w own)
    | inr e ↦ rw e own
  ]

  pub called-OthersMarked :
      (env : Env plant) (hooks : Hooks plant) (i : ℕ) (o : Object) (r : Operation × World × Request)
      → OthersMarked i o
      → OthersMarked i (finish env hooks (suc i) o r).0
  unfolding finish
  called-OthersMarked env hooks i o (op, w, keep_on) m = put-OthersMarked i op o m
  called-OthersMarked env hooks i o (op, w, off_mode) m =
      off-OthersMarked env hooks i (put_operation (suc i) op o) w (put-OthersMarked i op o m)

  pub called-OwnMarked :
      (env : Env plant) (hooks : Hooks plant) (i : ℕ) (o : Object) (r : Operation × World × Request)
      → get_bit o.state i ≡ true
      → OwnMarked i (finish env hooks (suc i) o r).0
  unfolding finish
  called-OwnMarked env hooks i o (op, w, keep_on) b a = b
  called-OwnMarked env hooks i o (op, w, off_mode) b a =
      off-OwnMarked env hooks i (put_operation (suc i) op o) w (λ _. b) a

  pub get_mode-bit : (o : Object) (i : ℕ) → get_mode o (suc i) ≡ true → get_bit o.state i ≡ true
  unfolding get_mode
  get_mode-bit o i h = ground arith

  pub call-OthersMarked :
      (env : Env plant) (hooks : Hooks plant) (f : Operation → World → Operation × World × Request)
      (i : ℕ) (o : Object) (w : World)
      → OthersMarked i o
      → OthersMarked i (call env hooks f (suc i) o w).0
  unfolding call
  call-OthersMarked env hooks f i o w m =
      called-OthersMarked env hooks i o (f (o.operations (suc i)) w) m

  -- A call on an operation whose bit is set.
  pub call-IsMarked :
      (env : Env plant) (hooks : Hooks plant) (f : Operation → World → Operation × World × Request)
      (i : ℕ) (o : Object) (w : World)
      → OthersMarked i o
      → get_bit o.state i ≡ true
      → IsMarked (call env hooks f (suc i) o w).0
  unfolding call
  call-IsMarked env hooks f i o w m b =
      to_marked i (finish env hooks (suc i) o (f (o.operations (suc i)) w)).0
        (called-OthersMarked env hooks i o (f (o.operations (suc i)) w) m)
        (called-OwnMarked env hooks i o (f (o.operations (suc i)) w) b)

  pub call-mark-IsMarked :
      (env : Env plant) (hooks : Hooks plant) (f : Operation → World → Operation × World × Request)
      (i : ℕ) (o : Object) (w : World)
      → i < o.operations_count
      → IsMarked o
      → IsMarked (call env hooks f (suc i) (mark true (suc i) o) w).0
  call-mark-IsMarked env hooks f i o w h m =
      let others = to_others i o m in
      call-IsMarked env hooks f i (mark true (suc i) o) w (mark-OthersMarked i true o others)
        (mark-bit i true o h others)
