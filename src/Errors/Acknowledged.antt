-- ===== src/Errors/Acknowledged.antt =====
-- The state of a device's error over a history of rounds and commands, against a description with
-- two bits: whether the error is present, and whether it is acknowledged
-- (common/PAC-driver/g_errors.cpp).
use ptusa_main.Common.{
  ℕ, ◌%◌, ◌/◌, ◌≡◌, refl, ◌∙◌, ap, Bool, true, false, ◌&&◌, ◌||◌, not, List, [], ◌∷◌, arith,
}
use ptusa_main.Common.Int.{ℤ, is_negative}
use ptusa_main.Errors.Alarm.{
  AlarmState, as_normal, as_alarm, as_return, as_accept, no_flags, DevError, ErrorCmd, c_cmd_accept,
  raise, settle, clear_flags, accept, suppress, unset_suppress, has_suppress, evaluate_dev,
  set_cmd_dev,
}

pub data Event : Type 0 where
  round : ℤ → Event
  command : ErrorCmd → Event

pub record Latch : Type 0 where
  pub present : Bool
  pub acked : Bool

-- A round takes the error of the device in; a new error is not acknowledged.
abbrev pub take : Bool → Latch → Latch
take err l = record { present = err; acked = l.acked && (l.present || not err) }

abbrev pub step : Event → Latch → Latch
step (round state) l = take (is_negative state) l
step (command c_cmd_accept) l = record l { acked = true }
step (command _) l = l

-- The alarm as the code keeps it.
abbrev pub to_latch : AlarmState → Latch
to_latch as_normal = record { present = false; acked = true }
to_latch as_alarm = record { present = true; acked = false }
to_latch as_return = record { present = false; acked = false }
to_latch as_accept = record { present = true; acked = true }

unfoldable pub run : List Event → DevError → DevError
run [] e = e
run (round state ∷ es) e = run es (evaluate_dev state e no_flags).0
run (command c ∷ es) e = run es (set_cmd_dev c e).0

abbrev pub run_latch : List Event → Latch → Latch
run_latch [] l = l
run_latch (e ∷ es) l = run_latch es (step e l)

evaluate-latch :
    (state : ℤ) (a : AlarmState) (e : DevError)
    → e.error_state ≡ a
    → to_latch (evaluate_dev state e no_flags).0.error_state
      ≡ step (round state) (to_latch e.error_state)
unfolding evaluate_dev raise settle clear_flags
evaluate-latch state as_normal e h = ground arith
evaluate-latch state _ e h = ground arith

command-latch :
    (c : ErrorCmd) (a : AlarmState) (e : DevError)
    → e.error_state ≡ a
    → to_latch (set_cmd_dev c e).0.error_state ≡ step (command c) (to_latch e.error_state)
unfolding set_cmd_dev accept
command-latch c_cmd_accept as_normal e h = ground arith
command-latch c_cmd_accept _ e h = ground arith
command-latch _ a e h = refl

-- After any history of rounds and commands the state of a device's error is the one that two bits
-- describe: whether the error was present at the last round, and whether it has been accepted since
-- it last appeared.
pub run-to_latch :
    (es : List Event) (e : DevError)
    → to_latch (run es e).error_state ≡ run_latch es (to_latch e.error_state)
unfolding run
run-to_latch [] e = refl
run-to_latch (round state ∷ es) e =
    run-to_latch es (evaluate_dev state e no_flags).0
    ∙ ap (run_latch es) (evaluate-latch state e.error_state e refl)
run-to_latch (command c ∷ es) e =
    run-to_latch es (set_cmd_dev c e).0 ∙ ap (run_latch es) (command-latch c e.error_state e refl)

-- Suppressing sets the bit of suppression and lifting it clears the bit, each undoes the other, and
-- suppressing keeps all other bits of the parameter.
pub suppress-bits :
    (par : ℕ)
    → (has_suppress (suppress par) ≡ true)
      × (has_suppress (unset_suppress par) ≡ false)
      × (unset_suppress (suppress par) ≡ unset_suppress par)
      × (suppress (unset_suppress par) ≡ suppress par)
      × (suppress par % 4 ≡ par % 4)
      × (suppress par / 8 ≡ par / 8)
unfolding has_suppress suppress unset_suppress
suppress-bits par = ground arith
