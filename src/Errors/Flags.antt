-- ===== src/Errors/Flags.antt =====
-- The flags that a round of errors_manager::evaluate leaves (common/PAC-driver/g_errors.cpp).
use ptusa_main.Common.{ℕ, ◌≡◌, refl, Bool, true, false, ◌&&◌, ◌||◌, List, [], ◌∷◌, ◌++◌, any, arith}
use ptusa_main.Common.Int.{ℤ, is_negative}
use ptusa_main.Errors.Alarm.{
  AlarmState, as_normal, Flags, no_flags, DevError, has_suppress, raise, settle, clear_flags,
  evaluate_dev, evaluate_obj,
}
use ptusa_main.Errors.Manager.{
  Error, dev_error, obj_error, Manager, evaluate_error, evaluate_errors, evaluate,
}

-- Whether the device of an error is in error, and whether the error is suppressed as well.
abbrev pub is_in_error : (ℕ → ℤ) → Error → Bool
is_in_error states (dev_error e) = is_negative (states e.simple_device)
is_in_error states (obj_error e) = false

abbrev pub is_hidden : (ℕ → ℤ) → Error → Bool
is_hidden states (dev_error e) = is_negative (states e.simple_device) && has_suppress e.err_par
is_hidden states (obj_error e) = false

dev-is_any_error :
    (s : ℤ) (a : AlarmState) (e : DevError) (f : Flags)
    → e.error_state ≡ a
    → (is_negative s && has_suppress e.err_par) ≡ false
    → (evaluate_dev s e f).1.is_any_error ≡ (f.is_any_error || is_negative s)
unfolding evaluate_dev raise settle clear_flags
dev-is_any_error s as_normal e f h n = ground arith
dev-is_any_error s _ e f h n = ground arith

error-is_any_error :
    (states : ℕ → ℤ) (e : Error) (f : Flags)
    → is_hidden states e ≡ false
    → (evaluate_error states e f).1.is_any_error ≡ (f.is_any_error || is_in_error states e)
unfolding evaluate_error evaluate_obj
error-is_any_error states (dev_error e) f n =
    dev-is_any_error (states e.simple_device) e.error_state e f refl n
error-is_any_error states (obj_error e) f n = ground arith

errors-is_any_error :
    (states : ℕ → ℤ) (es : List Error) (f : Flags)
    → any (is_hidden states) es ≡ false
    → (evaluate_errors states es f).1.is_any_error ≡ (f.is_any_error || any (is_in_error states) es)
unfolding evaluate_errors any
errors-is_any_error states [] f n = ground arith
errors-is_any_error states (e ∷ es) f n = ground (
  arith,
  error-is_any_error states e f,
  errors-is_any_error states es (evaluate_error states e f).1,
)

-- Where no device in error has its error suppressed, a round sets the flag for any error if and
-- only if some device is in error.
pub evaluate-is_any_error :
    (states : ℕ → ℤ) (m : Manager)
    → any (is_hidden states) m.s_errors_vector ≡ false
    → (evaluate states m).flags.is_any_error ≡ any (is_in_error states) m.s_errors_vector
unfolding evaluate
evaluate-is_any_error states m n = errors-is_any_error states m.s_errors_vector no_flags n

dev-hidden :
    (s : ℤ) (e : DevError) (f : Flags)
    → is_negative s ≡ true
    → has_suppress e.err_par ≡ true
    → ((evaluate_dev s e f).1.is_any_error ≡ false)
      × ((evaluate_dev s e f).1.is_any_no_ack_error ≡ false)
      × ((evaluate_dev s e f).1.is_new_error ≡ false)
unfolding evaluate_dev clear_flags
dev-hidden s e f n h = ground arith

errors-last :
    (states : ℕ → ℤ) (es : List Error) (e : Error) (f : Flags)
    → (evaluate_errors states (es ++ e ∷ []) f).1
      ≡ (evaluate_error states e (evaluate_errors states es f).1).1
unfolding evaluate_errors
errors-last states [] e f = refl
errors-last states (x ∷ es) e f = errors-last states es e (evaluate_error states x f).1

-- Where the last error is that of a device in error and is suppressed, a round leaves the flags for
-- any error, for errors to accept and for new errors off, whatever the other errors are.
pub evaluate-hidden_last :
    (states : ℕ → ℤ) (es : List Error) (e : DevError) (m : Manager)
    → m.s_errors_vector ≡ es ++ dev_error e ∷ []
    → is_negative (states e.simple_device) ≡ true
    → has_suppress e.err_par ≡ true
    → ((evaluate states m).flags.is_any_error ≡ false)
      × ((evaluate states m).flags.is_any_no_ack_error ≡ false)
      × ((evaluate states m).flags.is_new_error ≡ false)
unfolding evaluate evaluate_error
evaluate-hidden_last states es e m h n k =
    rw (h, errors-last states es (dev_error e) no_flags)
      (dev-hidden (states e.simple_device) e (evaluate_errors states es no_flags).1 n k)
