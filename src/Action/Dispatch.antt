-- ===== src/Action/Dispatch.antt =====
-- The class hierarchy of actions as data, and its virtual methods init, evaluate, finalize, is_empty
-- and check (PAC/common/operation_mngr.h and operation_mngr.cpp).
use ptusa_main.Common.{ℕ, Bool, List}
use ptusa_main.Common.Int.{ℤ}
use ptusa_main.Plant.{Plant, Env}
use ptusa_main.Action.Base
use ptusa_main.Action.Base.{Base}
use ptusa_main.Action.Simple.{
  Check, passed, on_evaluate, on_reverse_evaluate, off_evaluate, delay_on_evaluate,
  delay_off_evaluate, required_check,
}
use ptusa_main.Action.Links.{
  di_do_check, ai_ao_check, di_do_evaluate, inverted_di_do_evaluate, ai_ao_evaluate, links_finalize,
}
use ptusa_main.Action.Wash.{wash_evaluate, wash_finalize}
use ptusa_main.Action.Seat.{Seat, seat_is_empty, seat_init, seat_evaluate, seat_finalize}

-- The second field of a delayed action is its `start_time`, that of `enable_step` its
-- `turn_off_flag`, and that of `jump_if` its `next_n`.
pub data Action : Type 0 where
  checked_devices on_devices on_reverse off_devices : Base → Action
  open_seat : Seat → Action
  required_di di_do inverted_di_do ai_ao wash : Base → Action
  enable_step : Base → Bool → Action
  delay_on delay_off : Base → ℕ → Action
  jump_if : Base → List ℤ → Action

unfoldable pub is_empty : Action → Bool
is_empty (checked_devices b) = Base.is_empty b
is_empty (on_devices b) = Base.is_empty b
is_empty (on_reverse b) = Base.is_empty b
is_empty (off_devices b) = Base.is_empty b
is_empty (open_seat s) = seat_is_empty s
is_empty (required_di b) = Base.is_empty b
is_empty (di_do b) = Base.is_empty b
is_empty (inverted_di_do b) = Base.is_empty b
is_empty (ai_ao b) = Base.is_empty b
is_empty (wash b) = Base.is_empty b
is_empty (enable_step b _) = Base.is_empty b
is_empty (delay_on b _) = Base.is_empty b
is_empty (delay_off b _) = Base.is_empty b
is_empty (jump_if b _) = Base.is_empty b

module _ ⦃plant : Plant⦄ where
  open plant use {World}

  unfoldable pub check : Action → Check
  check (di_do b) = di_do_check b
  check (inverted_di_do b) = di_do_check b
  check (ai_ao b) = ai_ao_check b
  check _ = passed

  -- The signals are the only check that reads the state of the devices.
  unfoldable pub check_signals : Action → World → Check
  check_signals (required_di b) w = required_check b w
  check_signals a w = check a

  unfoldable pub init : Env plant → ℕ → Action → Action
  init env step_time (open_seat s) = open_seat (seat_init env step_time s)
  init env step_time (delay_on b _) = delay_on b env.now
  init env step_time (delay_off b _) = delay_off b env.now
  init env step_time a = a

  unfoldable pub evaluate : Env plant → Action → World → Action × World
  evaluate env (on_devices b) w = (on_devices b, on_evaluate b w)
  evaluate env (on_reverse b) w = (on_reverse b, on_reverse_evaluate b w)
  evaluate env (off_devices b) w = (off_devices b, off_evaluate b w)
  evaluate env (open_seat s) w = let (s', w') = seat_evaluate env s w in (open_seat s', w')
  evaluate env (di_do b) w = (di_do b, di_do_evaluate b w)
  evaluate env (inverted_di_do b) w = (inverted_di_do b, inverted_di_do_evaluate b w)
  evaluate env (ai_ao b) w = (ai_ao b, ai_ao_evaluate b w)
  evaluate env (wash b) w = (wash b, wash_evaluate env b w)
  evaluate env (delay_on b t) w = (delay_on b t, delay_on_evaluate env b t w)
  evaluate env (delay_off b t) w = (delay_off b t, delay_off_evaluate env b t w)
  evaluate env a w = (a, w)

  unfoldable pub finalize : Action → World → World
  finalize (checked_devices _) w = w
  finalize (open_seat s) w = seat_finalize s w
  finalize (required_di _) w = w
  finalize (di_do b) w = links_finalize b w
  finalize (inverted_di_do b) w = links_finalize b w
  finalize (ai_ao b) w = links_finalize b w
  finalize (wash b) w = wash_finalize b w
  finalize (jump_if _ _) w = w
  finalize (on_devices b) w = Base.finalize b w
  finalize (on_reverse b) w = Base.finalize b w
  finalize (off_devices b) w = Base.finalize b w
  finalize (enable_step b _) w = Base.finalize b w
  finalize (delay_on b _) w = Base.finalize b w
  finalize (delay_off b _) w = Base.finalize b w

  unfoldable pub check_devices : Action → World → Bool
  check_devices (checked_devices b) w = Base.check_devices b w
  check_devices (on_devices b) w = Base.check_devices b w
  check_devices (on_reverse b) w = Base.check_devices b w
  check_devices (off_devices b) w = Base.check_devices b w
  check_devices (open_seat _) w = Base.check_devices (Base.new_base 1) w
  check_devices (required_di b) w = Base.check_devices b w
  check_devices (di_do b) w = Base.check_devices b w
  check_devices (inverted_di_do b) w = Base.check_devices b w
  check_devices (ai_ao b) w = Base.check_devices b w
  check_devices (wash b) w = Base.check_devices b w
  check_devices (enable_step b _) w = Base.check_devices b w
  check_devices (delay_on b _) w = Base.check_devices b w
  check_devices (delay_off b _) w = Base.check_devices b w
  check_devices (jump_if b _) w = Base.check_devices b w
