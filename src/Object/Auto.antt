-- ===== src/Object/Auto.antt =====
-- The automatic changes of state of operation::evaluate (PAC/common/operation_mngr.cpp), which call
-- the owner.
use ptusa_main.Common.{ℕ, Bool, true, false, Option, none, some, ltb, ◌==◌, if◌then◌else◌}
use ptusa_main.Common.Int.{ℤ, pos}
use ptusa_main.Plant.{Plant, Env, get_delta_millisec}
use ptusa_main.State.Checks.{is_goto_next_state}
use ptusa_main.Operation.Mode.{Mode, idle, run, starting, pausing, unpausing, stopping}
use ptusa_main.Operation.Defs.{Operation, evaluate_current}
use ptusa_main.Errors.Alarm.{err_cant_on, err_during_work, err_to_fail_state}
use ptusa_main.Object.Defs.{
  Object, Hooks, to_on, to_pause, to_stop, NewMode, is_done, set_err_msg, put_operation, call,
  set_mode, check_operation_on,
}

-- The parameters of PAC_info that are read, the last as its comparison with 0.
pub record Settings : Type 0 where
  pub auto_operation_warn_time : ℕ
  pub auto_operation_wait_time : ℕ
  pub auto_pause_oper_on_dev_err : Bool

abbrev pub change : (Operation → Operation) → ℕ → Object → Object
change f n o = put_operation n (f (o.operations n)) o

-- The fields of an operation that waits to be turned on, was warned of, has waited too long, or is
-- not asked for.
abbrev pub waiting : ℕ → Operation → Operation
waiting now op = record op { start_warn = now; start_wait = now; is_first_goto_next_state = false }

abbrev pub warned : ℕ → Operation → Operation
warned now op = record op { start_warn = now }

abbrev pub failed : Operation → Operation
failed op = record op { was_fail = true }

abbrev pub unasked : Operation → Operation
unasked op = record op { is_first_goto_next_state = true; was_fail = false }

abbrev pub is_int : ℤ → ℕ → Bool
is_int (pos a) b = a == b
is_int _ b = false

module _ ⦃plant : Plant⦄ where
  open plant use {World}

  -- The object and the devices after set_mode, without its code.
  abbrev pub set : Env plant → Hooks plant → ℕ → NewMode → Object → World → Object × World
  set env hooks n m o w = let (o', w', _) = set_mode env hooks n m o w in (o', w')

  -- The first request to turn the operation on.
  unfoldable pub first_switch_on : Env plant → Hooks plant → ℕ → Object → World → Object × World
  first_switch_on env hooks n o w =
      let (o', w', res) = set_mode env hooks n to_on o w in
      if is_done res
      then (set_err_msg err_during_work o', w')
      else (change (waiting env.now) n (set_err_msg err_cant_on o'), w')

  -- The time to warn, and the time to wait, are over.
  unfoldable pub warn : Env plant → Hooks plant → Settings → ℕ → Object → World → Object
  warn env hooks s n o w =
      let (o', _) = check_operation_on hooks n true o w in
      if ltb s.auto_operation_warn_time (get_delta_millisec env.now (o.operations n).start_warn)
      then change (warned env.now) n (set_err_msg err_cant_on o')
      else o

  unfoldable pub give_up : Env plant → Settings → ℕ → Object → Object
  give_up env s n o =
      if ltb s.auto_operation_wait_time (get_delta_millisec env.now (o.operations n).start_wait)
      then change failed n (set_err_msg err_cant_on o)
      else o

  unfoldable pub process_auto_switch_on :
      Env plant → Hooks plant → Settings → ℕ → Object → World → Object × World
  process_auto_switch_on env hooks s n o w =
      let (o1, res) = check_operation_on hooks n false o w in
      let on = set env hooks n to_on (set_err_msg err_during_work o1) w in
      let first = first_switch_on env hooks n o w in
      if (o.operations n).was_fail
      then (o, w)
      else if (o.operations n).is_first_goto_next_state
      then first
      else if is_done res
      then on
      else (give_up env s n (warn env hooks s n o1 w), w)

  unfoldable pub process_new_state_from_run :
      Env plant → Hooks plant → ℕ → ℤ → Object → World → Object × World
  process_new_state_from_run env hooks n next o w =
      let stopped = set env hooks n to_stop (set_err_msg err_during_work o) w in
      let (paused, w') = set env hooks n to_pause o w in
      if is_int next 3
      then stopped
      else if is_int next 2
      then (set_err_msg err_to_fail_state paused, w')
      else (o, w)

  -- default_process_new_state, with the number and the mode of the state by default.
  unfoldable pub default_process_new_state :
      Env plant → Hooks plant → ℕ → ℤ → ℕ → NewMode → Object → World → Object × World
  default_process_new_state env hooks n next def_state def_mode o w =
      let stopped = set env hooks n to_stop (set_err_msg err_during_work o) w in
      let moved = set env hooks n def_mode o w in
      if is_int next 3 then stopped else if is_int next def_state then moved else (o, w)

  unfoldable pub go_to :
      Env plant → Hooks plant → Settings → ℕ → Mode → ℤ → Object → World → Object × World
  go_to env hooks s n idle next o w = process_auto_switch_on env hooks s n o w
  go_to env hooks s n run next o w = process_new_state_from_run env hooks n next o w
  go_to env hooks s n starting next o w = default_process_new_state env hooks n next 1 to_on o w
  go_to env hooks s n pausing next o w = default_process_new_state env hooks n next 2 to_pause o w
  go_to env hooks s n unpausing next o w = default_process_new_state env hooks n next 1 to_on o w
  go_to env hooks s n stopping next o w = set env hooks n to_stop o w
  go_to env hooks s n _ next o w = (o, w)

  -- The rest of `evaluate`, by the state that the operation is to go to.
  unfoldable pub react :
      Env plant → Hooks plant → Settings → ℕ → Option ℤ → Object → World → Object × World
  react env hooks s n none o w = (change unasked n o, w)
  react env hooks s n (some next) o w = go_to env hooks s n (o.operations n).current_state next o w

  -- operation::evaluate
  unfoldable pub evaluate_operation :
      Env plant → Hooks plant → Settings → ℕ → Object → World → Object × World
  evaluate_operation env hooks s n o w =
      let (o', w') = call env hooks (evaluate_current env) n o w in
      let op = o'.operations n in
      react env hooks s n (is_goto_next_state (op.states op.current_state) w') o' w'
