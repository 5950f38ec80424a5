-- ===== src/Errors/Settled.antt =====
-- The rounds of errors_manager::evaluate (common/PAC-driver/g_errors.cpp), and the number that tells
-- a server whether the errors have changed.
use ptusa_main.Common.{
  ℕ, Bool-cases, inl, inr, ◌≡◌, refl, ◌∙◌, ap, false, List, [], ◌∷◌, if◌then◌else◌, arith,
}
use mathlib.Core.Path.{ap₂, subst}
use ptusa_main.Common.Int.{ℤ}
use ptusa_main.Errors.Alarm.{
  AlarmState, as_normal, Flags, no_flags, DevError, ObjError, raise, settle, clear_flags,
  evaluate_dev, evaluate_obj,
}
use ptusa_main.Errors.Manager.{
  Error, dev_error, obj_error, Manager, evaluate_error, evaluate_errors, evaluate, next_id,
}

dev_settled :
    (s : ℤ) (a : AlarmState) (e : DevError) (f g : Flags)
    → e.error_state ≡ a
    → (evaluate_dev s (evaluate_dev s e f).0 g).0 ≡ (evaluate_dev s e f).0
unfolding evaluate_dev raise settle clear_flags
dev_settled s as_normal e f g h = ground arith
dev_settled s _ e f g h = ground arith

dev_quiet :
    (s : ℤ) (a : AlarmState) (e : DevError) (f g : Flags)
    → e.error_state ≡ a
    → (evaluate_dev s (evaluate_dev s e f).0 g).1.is_new_state ≡ g.is_new_state
unfolding evaluate_dev raise settle clear_flags
dev_quiet s as_normal e f g h = ground arith
dev_quiet s _ e f g h = ground arith

obj_settled :
    (e : ObjError) (f g : Flags) → (evaluate_obj (evaluate_obj e f).0 g).0 ≡ (evaluate_obj e f).0
unfolding evaluate_obj
obj_settled e f g = ground arith

obj_quiet :
    (e : ObjError) (f g : Flags)
    → (evaluate_obj (evaluate_obj e f).0 g).1.is_new_state ≡ g.is_new_state
unfolding evaluate_obj
obj_quiet e f g = ground arith

dev_device :
    (s : ℤ) (e : DevError) (f : Flags) → (evaluate_dev s e f).0.simple_device ≡ e.simple_device
unfolding evaluate_dev
dev_device s e f = ground arith

error_settled :
    (states : ℕ → ℤ) (e : Error) (f g : Flags)
    → (evaluate_error states (evaluate_error states e f).0 g).0 ≡ (evaluate_error states e f).0
unfolding evaluate_error
error_settled states (dev_error e) f g =
    rw (dev_device (states e.simple_device) e f)
      (ap dev_error (dev_settled (states e.simple_device) e.error_state e f g refl))
error_settled states (obj_error e) f g = ap obj_error (obj_settled e f g)

error_quiet :
    (states : ℕ → ℤ) (e : Error) (f g : Flags)
    → (evaluate_error states (evaluate_error states e f).0 g).1.is_new_state ≡ g.is_new_state
unfolding evaluate_error
error_quiet states (dev_error e) f g =
    rw (dev_device (states e.simple_device) e f)
      (dev_quiet (states e.simple_device) e.error_state e f g refl)
error_quiet states (obj_error e) f g = obj_quiet e f g

errors_settled :
    (states : ℕ → ℤ) (es : List Error) (f g : Flags)
    → (evaluate_errors states (evaluate_errors states es f).0 g).0 ≡ (evaluate_errors states es f).0
unfolding evaluate_errors
errors_settled states [] f g = refl
errors_settled states (e ∷ es) f g =
    let (e1, f1) = evaluate_error states e f in
    let g1 = (evaluate_error states e1 g).1 in
    ap₂ (λ x xs. x ∷ xs) (error_settled states e f g) (errors_settled states es f1 g1)

errors_quiet :
    (states : ℕ → ℤ) (es : List Error) (f g : Flags)
    → (evaluate_errors states (evaluate_errors states es f).0 g).1.is_new_state ≡ g.is_new_state
unfolding evaluate_errors
errors_quiet states [] f g = refl
errors_quiet states (e ∷ es) f g =
    let (e1, f1) = evaluate_error states e f in
    errors_quiet states es f1 (evaluate_error states e1 g).1 ∙ error_quiet states e f g

-- A second round on the same states of the devices changes neither the errors nor their number.
pub evaluate-settled :
    (states : ℕ → ℤ) (m : Manager)
    → ((evaluate states (evaluate states m)).errors_id ≡ (evaluate states m).errors_id)
      × ((evaluate states (evaluate states m)).s_errors_vector
          ≡ (evaluate states m).s_errors_vector)
unfolding evaluate
evaluate-settled states m = (
  rw (errors_quiet states m.s_errors_vector no_flags no_flags) refl,
  errors_settled states m.s_errors_vector no_flags no_flags,
)

dev_unchanged :
    (s : ℤ) (a : AlarmState) (e : DevError) (f : Flags)
    → e.error_state ≡ a
    → (evaluate_dev s e f).1.is_new_state ≡ false
    → ((evaluate_dev s e f).0 ≡ e) × (f.is_new_state ≡ false)
unfolding evaluate_dev raise settle clear_flags
dev_unchanged s as_normal e f h n = ground arith
dev_unchanged s _ e f h n = ground arith

obj_unchanged :
    (e : ObjError) (f : Flags)
    → (evaluate_obj e f).1.is_new_state ≡ false
    → ((evaluate_obj e f).0 ≡ e) × (f.is_new_state ≡ false)
unfolding evaluate_obj
obj_unchanged e f n = ground arith

error_unchanged :
    (states : ℕ → ℤ) (e : Error) (f : Flags)
    → (evaluate_error states e f).1.is_new_state ≡ false
    → ((evaluate_error states e f).0 ≡ e) × (f.is_new_state ≡ false)
unfolding evaluate_error
error_unchanged states (dev_error e) f n =
    let (same, quiet) = dev_unchanged (states e.simple_device) e.error_state e f refl n in
    (ap dev_error same, quiet)
error_unchanged states (obj_error e) f n =
    let (same, quiet) = obj_unchanged e f n in (ap obj_error same, quiet)

errors_unchanged :
    (states : ℕ → ℤ) (es : List Error) (f : Flags)
    → (evaluate_errors states es f).1.is_new_state ≡ false
    → ((evaluate_errors states es f).0 ≡ es) × (f.is_new_state ≡ false)
unfolding evaluate_errors
errors_unchanged states [] f n = (refl, n)
errors_unchanged states (e ∷ es) f n =
    let (same_es, quiet1) = errors_unchanged states es (evaluate_error states e f).1 n in
    let (same, quiet) = error_unchanged states e f quiet1 in
    (ap₂ (λ x xs. x ∷ xs) same same_es, quiet)

next_id_moves : (id : ℕ) → next_id id ≡ id → ⊥
next_id_moves id h = omega arith

-- Where a round leaves the number of the errors as it was, it has left all errors as they were, so
-- that who watches the number misses no change of a round.
pub evaluate-errors_id :
    (states : ℕ → ℤ) (m : Manager)
    → (evaluate states m).errors_id ≡ m.errors_id
    → (evaluate states m).s_errors_vector ≡ m.s_errors_vector
unfolding evaluate
evaluate-errors_id states m h =
    elim (Bool-cases (evaluate_errors states m.s_errors_vector no_flags).1.is_new_state) [
      | inl new ↦ absurd (
          next_id_moves m.errors_id
            (subst (λ b. (if b then next_id m.errors_id else m.errors_id) ≡ m.errors_id) new h))
      | inr same ↦ (errors_unchanged states m.s_errors_vector no_flags same).0
    ]
