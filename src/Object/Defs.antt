-- ===== src/Object/Defs.antt =====
-- The fields of tech_object, set_mode, get_mode, check_operation_on, set_extra_step and set_err_msg
-- (PAC/common/tech_def.cpp).
use ptusa_main.Common.{
  ℕ, zero, suc, ◌+◌, Bool, true, false, ◌&&◌, not, Option, none, some, List, [], ◌∷◌, ◌++◌, length,
  ltb, ◌==◌, if◌then◌else◌,
}
use ptusa_main.Common.Int.{ℤ, pos, negsuc, is_positive}
use ptusa_main.Plant.{Plant, Env}
use ptusa_main.State.Evaluate.{Request, keep_on, off_mode}
use ptusa_main.Operation.Mode.{is_mode, run}
use ptusa_main.Operation.Defs.{
  Operation, new_operation, pause_operation, stop_operation, start_operation, start_kept, finalize,
}
use ptusa_main.Operation.Steps.{on_extra_step, off_extra_step, move, check_devices_on_run_state}
use ptusa_main.Errors.Alarm.{MsgType, ErrInfo, err_cant_on, err_on_with_errors}
use ptusa_main.Object.Bits
use ptusa_main.Object.Bits.{get_bit, put_bit}

-- The operations by their numbers from 1; the first bit of `state` is that of the operation 1.
-- `error_number` is the static counter of messages.
pub record Object : Type 0 where
  pub operations_count : ℕ
  pub operations : ℕ → Operation
  pub state : Bits.State
  pub errors : List ErrInfo
  pub error_number : ℕ
  pub active_operation_or_idle_time : ℕ

unfoldable pub new_object : ℕ → ℕ → Object
new_object now count = record {
  operations_count = count;
  operations = λ n. new_operation now n;
  state = Bits.new_state count;
  errors = [];
  error_number = 0;
  active_operation_or_idle_time = now;
}

-- The modes that `set_mode` tells apart: 2, 3, 0 and any other number.
pub data NewMode : Type 0 where
  to_pause to_stop to_off to_on : NewMode

unfoldable pub new_mode : ℤ → NewMode
new_mode (pos n) =
    if n == 0 then to_off else if n == 2 then to_pause else if n == 3 then to_stop else to_on
new_mode _ = to_on

-- The code that `set_mode` returns: `coded base r` is base + r, for the `r` that Lua returned.
pub data Code : Type 0 where
  done already number_too_large number_zero : Code
  coded : ℕ → ℤ → Code

-- Whether the code is 0.
abbrev pub is_done : Code → Bool
is_done done = true
is_done (coded base (pos r)) = base + r == 0
is_done (coded base (negsuc r)) = r + 1 == base
is_done _ = false

abbrev pub e_max_errors_size : ℕ
e_max_errors_size = 10

-- set_err_msg, without the text.
unfoldable pub set_err_msg : MsgType → Object → Object
set_err_msg type o =
    let n = o.error_number + 1 in
    let counted = record o { error_number = n } in
    if ltb (length o.errors) e_max_errors_size
    then record counted { errors = o.errors ++ record { type = type; n = n } ∷ [] }
    else counted

abbrev pub is_number : Object → ℕ → Bool
is_number o n = ltb 0 n && not (ltb o.operations_count n)

-- int idx = operation_n - 1; the number 0 is refused before.
abbrev pub bit_of : ℕ → ℕ
bit_of zero = 0
bit_of (suc i) = i

unfoldable pub get_mode : Object → ℕ → Bool
get_mode o n = is_number o n && get_bit o.state (bit_of n)

-- state[ i / 32 ] | 1UL << i % 32, or its opposite.
abbrev pub mark : Bool → ℕ → Object → Object
mark b n o = record o { state = put_bit o.state (bit_of n) b }

abbrev pub put_operation : ℕ → Operation → Object → Object
put_operation n op o = record o { operations = λ k. if n == k then op else o.operations k }

-- The methods of the object that Lua implements. They may change the devices; that they command
-- operations in turn is left out.
pub record Hooks (plant : Plant) : Type 0 where
  pub lua_check_on_pause : ℕ → plant.World → ℤ
  pub lua_check_on_stop : ℕ → plant.World → ℤ
  pub lua_check_on_start : ℕ → plant.World → ℤ
  pub lua_check_on_mode : ℕ → plant.World → ℤ
  pub lua_check_off_mode : ℕ → plant.World → ℤ
  pub is_check_mode : ℕ → plant.World → Bool
  pub lua_get_run_step_after_pause : ℕ → plant.World → ℤ
  pub lua_on_pause : ℕ → plant.World → plant.World
  pub lua_on_stop : ℕ → plant.World → plant.World
  pub lua_on_start : ℕ → plant.World → plant.World
  pub lua_init_mode : ℕ → plant.World → plant.World
  pub lua_final_mode : ℕ → plant.World → plant.World

abbrev pub is_zero : ℤ → Bool
is_zero (pos n) = n == 0
is_zero _ = false

module _ ⦃plant : Plant⦄ where
  open plant use {World}

  -- set_mode for an operation that exists and the mode 0, where the operation is on.
  unfoldable pub turn_off : Env plant → Hooks plant → ℕ → Object → World → Object × World × Code
  turn_off env hooks n o w =
      let res = hooks.lua_check_off_mode n w in
      let (op, w') = finalize env (o.operations n) w in
      let off = record (put_operation n op (mark false n o)) {
        active_operation_or_idle_time = env.now;
      } in
      if is_positive res
      then (o, w, coded 100 res)
      else (off, hooks.lua_final_mode n w', coded 0 res)

  -- off_mode of operation_manager: set_mode with the mode 0.
  unfoldable pub off : Env plant → Hooks plant → ℕ → Object → World → Object × World
  off env hooks n o w =
      let (o', w', _) = turn_off env hooks n o w in if get_mode o n then (o', w') else (o, w)

  -- The operation after a call of one of its methods, with the call of `off_mode` that ends it
  -- where it does.
  unfoldable pub finish :
      Env plant → Hooks plant → ℕ → Object → Operation × World × Request → Object × World
  finish env hooks n o (op, w, keep_on) = (put_operation n op o, w)
  finish env hooks n o (op, w, off_mode) = off env hooks n (put_operation n op o) w

  -- ( *operations_manager )[ n ]->f( … )
  unfoldable pub call :
      Env plant
      → Hooks plant
      → (Operation → World → Operation × World × Request)
      → ℕ
      → Object
      → World
      → Object × World
  call env hooks f n o w = finish env hooks n o (f (o.operations n) w)

  unfoldable pub pause_mode : Env plant → Hooks plant → ℕ → Object → World → Object × World × Code
  pause_mode env hooks n o w =
      let res = hooks.lua_check_on_pause n w in
      let (o', w') = call env hooks (pause_operation env) n (mark true n o) w in
      if is_zero res then (o', hooks.lua_on_pause n w', done) else (o, w, coded 200 res)

  unfoldable pub stop_mode : Env plant → Hooks plant → ℕ → Object → World → Object × World × Code
  stop_mode env hooks n o w =
      let res = hooks.lua_check_on_stop n w in
      let (o', w') = call env hooks (stop_operation env) n (mark true n o) w in
      if is_zero res then (o', hooks.lua_on_stop n w', done) else (o, w, coded 300 res)

  -- The mode 1 for an operation that is on.
  unfoldable pub start_again : Env plant → Hooks plant → ℕ → Object → World → Object × World × Code
  start_again env hooks n o w =
      let res = hooks.lua_check_on_start n w in
      let step = hooks.lua_get_run_step_after_pause n w in
      let (o', w') = call env hooks (start_operation env step) n o w in
      if is_mode (o.operations n).current_state run
      then (o, w, already)
      else if is_zero res
      then (o', hooks.lua_on_start n w', done)
      else (o, w, coded 400 res)

  -- The mode 1 for an operation that is off.
  unfoldable pub start_new : Env plant → Hooks plant → ℕ → Object → World → Object × World × Code
  start_new env hooks n o w =
      let is_dev_err = check_devices_on_run_state (o.operations n) w in
      let res = hooks.lua_check_on_mode n w in
      let (o1, w1) = call env hooks (start_kept env) n o w in
      let on = mark true n o1 in
      let told = if is_dev_err then set_err_msg err_on_with_errors on else on in
      if is_dev_err && hooks.is_check_mode n w
      then (set_err_msg err_cant_on o, w, coded 1000 (pos n))
      else if is_zero res
      then (
        record told { active_operation_or_idle_time = env.now },
        hooks.lua_on_start n (hooks.lua_init_mode n w1),
        done,
      )
      else (o, w, coded 100 res)

  unfoldable pub set_mode_of :
      Env plant → Hooks plant → ℕ → NewMode → Object → World → Object × World × Code
  set_mode_of env hooks n to_pause o w = pause_mode env hooks n o w
  set_mode_of env hooks n to_stop o w = stop_mode env hooks n o w
  set_mode_of env hooks n to_off o w =
      let off = turn_off env hooks n o w in if get_mode o n then off else (o, w, already)
  set_mode_of env hooks n to_on o w =
      let again = start_again env hooks n o w in
      let new = start_new env hooks n o w in if get_mode o n then again else new

  unfoldable pub set_mode :
      Env plant → Hooks plant → ℕ → NewMode → Object → World → Object × World × Code
  set_mode env hooks zero newm o w = (o, w, number_zero)
  set_mode env hooks (suc i) newm o w =
      let set = set_mode_of env hooks (suc i) newm o w in
      if ltb o.operations_count (suc i) then (o, w, number_too_large) else set

  -- The reasons not to turn an operation on, with the message where it is shown.
  unfoldable pub check_operation_on : Hooks plant → ℕ → Bool → Object → World → Object × Code
  check_operation_on hooks n show_error o w =
      let res = hooks.lua_check_on_mode n w in
      if check_devices_on_run_state (o.operations n) w && hooks.is_check_mode n w
      then (if show_error then set_err_msg err_cant_on o else o, coded 1000 (pos n))
      else (o, if is_zero res then done else coded 100 res)

  -- set_extra_step: `none` where the source reads out of bounds.
  abbrev pub put_moved : ℕ → Object → Option (Operation × World) → Option (Object × World)
  put_moved n o none = none
  put_moved n o (some (op, w)) = some (put_operation n op o, w)

  unfoldable pub set_extra_step : Env plant → ℕ → ℕ → ℕ → Object → World → Option (Object × World)
  set_extra_step env n step cmd o w =
      let off = put_moved n o (move env (off_extra_step step) (o.operations n) w) in
      let on = put_moved n o (move env (on_extra_step step) (o.operations n) w) in
      if is_number o n
      then (if cmd == 0 then off else if cmd == 1 then on else some (o, w))
      else some (o, w)
