-- ===== src/Object/Marked.antt =====
-- The bits of tech_object::state against the states of the operations, over set_mode
-- (PAC/common/tech_def.cpp).
use ptusa_main.Common.{
  ℕ, suc, ◌≡◌, ◌≢◌, ◌<◌, refl, sym, ◌∙◌, Bool, true, inl, inr, Bool-cases, length, ltb, arith,
}
use native.Mathlib.Decide.{ℕ_discrete}
use mathlib.Core.Path.{subst}
use ptusa_main.Operation.Mode.{idle}
use ptusa_main.Operation.Defs.{new_operation, Operation}
use ptusa_main.Errors.Alarm.{MsgType}
use ptusa_main.Object.Bits.{
  get_bit, IsSized, get_bit-put_other, get_bit-put_self, put_bit-IsSized, new_state-IsSized,
}
use ptusa_main.Object.Defs.{Object, new_object, set_err_msg, mark, put_operation}

-- An operation that is not idle has its bit; the one with bit `i` apart.
pub record OthersMarked (i : ℕ) (o : Object) : Type 0 where
  pub sized : IsSized o.operations_count o.state
  pub others :
      (k : ℕ)
      → k < o.operations_count
      → k ≢ i
      → (o.operations (suc k)).current_state ≢ idle
      → get_bit o.state k ≡ true

pub record IsMarked (o : Object) : Type 0 where
  pub sized : IsSized o.operations_count o.state
  pub marked :
      (k : ℕ)
      → k < o.operations_count
      → (o.operations (suc k)).current_state ≢ idle
      → get_bit o.state k ≡ true

-- The operation with bit `i` is idle or has its bit.
abbrev pub OwnMarked : ℕ → Object → Type 0
OwnMarked i o = (o.operations (suc i)).current_state ≢ idle → get_bit o.state i ≡ true

pub to_others : (i : ℕ) (o : Object) → IsMarked o → OthersMarked i o
to_others i o m = record { sized = m.sized; others = λ k h n a. m.marked k h a }

pub to_marked : (i : ℕ) (o : Object) → OthersMarked i o → OwnMarked i o → IsMarked o
to_marked i o m own = record {
  sized = m.sized;
  marked = λ k h a. elim (ℕ_discrete k i) [
    | yes e ↦
        subst (λ j. (o.operations (suc j)).current_state ≢ idle → get_bit o.state j ≡ true) (sym e)
          own a
    | no n ↦ m.others k h n a
  ];
}

pub mark-OthersMarked :
    (i : ℕ) (b : Bool) (o : Object) → OthersMarked i o → OthersMarked i (mark b (suc i) o)
mark-OthersMarked i b o m = record {
  sized = put_bit-IsSized o.operations_count o.state i b m.sized;
  others = λ k h n a. get_bit-put_other o.state i k b (λ e. n (sym e)) ∙ m.others k h n a;
}

pub mark-bit :
    (i : ℕ) (b : Bool) (o : Object)
    → i < o.operations_count
    → OthersMarked i o
    → get_bit (mark b (suc i) o).state i ≡ b
mark-bit i b o h m = get_bit-put_self o.operations_count o.state i b m.sized h

put_other :
    (i k : ℕ) (op : Operation) (o : Object)
    → k ≢ i
    → (put_operation (suc i) op o).operations (suc k) ≡ o.operations (suc k)
put_other i k op o n = ground arith

pub put_self :
    (i : ℕ) (op : Operation) (o : Object) → (put_operation (suc i) op o).operations (suc i) ≡ op
put_self i op o = ground arith

pub put-OthersMarked :
    (i : ℕ) (op : Operation) (o : Object)
    → OthersMarked i o
    → OthersMarked i (put_operation (suc i) op o)
put-OthersMarked i op o m = record {
  sized = m.sized;
  others = λ k h n a. m.others k h n (subst (λ q. q.current_state ≢ idle) (put_other i k op o n) a);
}

pub set_err_msg-IsMarked :
    (type : MsgType) (o : Object) → IsMarked o → IsMarked (set_err_msg type o)
unfolding set_err_msg
set_err_msg-IsMarked type o m = elim (Bool-cases (ltb (length o.errors) 10)) [
  | inl e ↦ rw e (record { sized = m.sized; marked = m.marked })
  | inr e ↦ rw e (record { sized = m.sized; marked = m.marked })
]

-- All operations of a new object are off.
pub new_object-IsMarked : (now count : ℕ) → IsMarked (new_object now count)
unfolding new_object new_operation
new_object-IsMarked now count = record {
  sized = new_state-IsSized count;
  marked = λ k h a. absurd (a refl);
}
