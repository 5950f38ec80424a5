-- ===== src/Object/Evaluate.antt =====
-- tech_object::evaluate (PAC/common/tech_def.cpp): each operation, and then its devices, the
-- parameters of its steps and their limits, which pause it.
use ptusa_main.Common.{ℕ, zero, suc, Bool, true, false, ◌&&◌, Option, none, some, if◌then◌else◌}
use ptusa_main.Plant.{Plant, Env}
use ptusa_main.State.Checks.{Overtime}
use ptusa_main.Operation.Mode.{is_mode, run}
use ptusa_main.Operation.Defs.{pause_operation}
use ptusa_main.Operation.Steps.{check_devices_on_run_state, check_steps_params, check_max_step_time}
use ptusa_main.Errors.Alarm.{err_to_fail_state}
use ptusa_main.Object.Defs.{Object, Hooks, set_err_msg, call}
use ptusa_main.Object.Auto.{Settings, evaluate_operation}

abbrev pub is_some : Option Overtime → Bool
is_some none = false
is_some (some _) = true

module _ ⦃plant : Plant⦄ where
  open plant use {World}

  unfoldable pub fail_pause : Env plant → Hooks plant → ℕ → Object → World → Object × World
  fail_pause env hooks n o w =
      let (o', w') = call env hooks (pause_operation env) n (set_err_msg err_to_fail_state o) w in
      (o', hooks.lua_on_pause n w')

  abbrev pub fail_if : Bool → Env plant → Hooks plant → ℕ → Object × World → Object × World
  fail_if b env hooks n (o, w) = if b then fail_pause env hooks n o w else (o, w)

  abbrev pub has_failed : Hooks plant → Settings → ℕ → Object → World → Bool
  has_failed hooks s n o w =
      s.auto_pause_oper_on_dev_err
      && is_mode (o.operations n).current_state run
      && check_devices_on_run_state (o.operations n) w
      && hooks.is_check_mode n w

  unfoldable pub check_devices :
      Env plant → Hooks plant → Settings → ℕ → Object × World → Object × World
  check_devices env hooks s n (o, w) = fail_if (has_failed hooks s n o w) env hooks n (o, w)

  abbrev pub is_late : Env plant → ℕ → Object → Bool
  is_late env n o = is_some (check_max_step_time env (o.operations n))

  unfoldable pub check_time : Env plant → Hooks plant → ℕ → Object × World → Object × World
  check_time env hooks n (o, w) = fail_if (is_late env n o) env hooks n (o, w)

  -- The limit of the step is looked at even where the parameters have just paused the operation.
  unfoldable pub check_steps : Env plant → Hooks plant → ℕ → Object × World → Object × World
  check_steps env hooks n (o, w) =
      let op = o.operations n in
      let timed = check_time env hooks n (fail_if (check_steps_params env op) env hooks n (o, w)) in
      if is_mode op.current_state run then timed else (o, w)

  unfoldable pub evaluate_number :
      Env plant → Hooks plant → Settings → ℕ → Object → World → Object × World
  evaluate_number env hooks s n o w =
      check_steps env hooks n (check_devices env hooks s n (evaluate_operation env hooks s n o w))

  -- The loop from the operation `n`.
  unfoldable pub evaluate_from :
      Env plant → Hooks plant → Settings → ℕ → ℕ → Object → World → Object × World
  evaluate_from env hooks s zero n o w = (o, w)
  evaluate_from env hooks s (suc count) n o w =
      let (o', w') = evaluate_number env hooks s n o w in
      evaluate_from env hooks s count (suc n) o' w'

  unfoldable pub evaluate : Env plant → Hooks plant → Settings → Object → World → Object × World
  evaluate env hooks s o w = evaluate_from env hooks s o.operations_count 1 o w
