-- ===== src/Errors/Alarm.antt =====
-- tech_dev_error and tech_obj_error of common/PAC-driver/g_errors.cpp.
use ptusa_main.Common.{
  ℕ, ◌+◌, ◌-◌, ◌/◌, ◌%◌, Bool, true, false, ◌||◌, not, Option, none, some, List, [], ◌∷◌, length,
  is_nil, ◌==◌, if◌then◌else◌,
}
use ptusa_main.Common.Int.{ℤ, is_negative}

pub data AlarmState : Type 0 where
  as_normal as_alarm as_return as_accept : AlarmState

-- ERR_MSG_TYPES, with `err_none` for the values that it does not name.
pub data MsgType : Type 0 where
  err_cant_on err_on_with_errors err_off err_off_and_on err_during_work err_alarm : MsgType
  err_to_fail_state err_cant_on_2_oper err_cant_on_2_obj err_none : MsgType

-- Those of the ALARM_CLASS_PRIORITY that messages have.
abbrev pub p_alarm : ℕ
p_alarm = 250

abbrev pub p_message : ℕ
p_message = 500

abbrev pub p_answer : ℕ
p_answer = 750

unfoldable pub get_priority : MsgType → ℕ
get_priority err_cant_on = p_answer
get_priority err_on_with_errors = p_answer
get_priority err_cant_on_2_oper = p_answer
get_priority err_cant_on_2_obj = p_answer
get_priority err_off = p_message
get_priority err_off_and_on = p_message
get_priority err_during_work = p_message
get_priority _ = p_alarm

-- Bit 2 of the parameter, P_IS_SUPPRESS: its test, and `|= 4` and `|= 4, ^= 4`.
unfoldable pub has_suppress : ℕ → Bool
has_suppress par = par / 4 % 2 == 1

unfoldable pub suppress : ℕ → ℕ
suppress par = if has_suppress par then par else par + 4

unfoldable pub unset_suppress : ℕ → ℕ
unset_suppress par = suppress par - 4

-- The static fields of both classes, and the reference that `evaluate` gets.
pub record Flags : Type 0 where
  pub is_any_error : Bool
  pub is_any_no_ack_error : Bool
  pub is_new_error : Bool
  pub is_any_message : Bool
  pub is_new_state : Bool

abbrev pub no_flags : Flags
no_flags = record {
  is_any_error = false;
  is_any_no_ack_error = false;
  is_new_error = false;
  is_any_message = false;
  is_new_state = false;
}

pub record DevError : Type 0 where
  pub simple_device : ℕ
  pub object_type : ℕ
  pub object_n : ℕ
  pub err_par : ℕ
  pub error_state : AlarmState

-- A message of a technological object, and the object's error with the messages of the object.
pub record ErrInfo : Type 0 where
  pub type : MsgType
  pub n : ℕ

pub record ObjError : Type 0 where
  pub errors : List ErrInfo
  pub object_type : ℕ
  pub object_n : ℕ
  pub prev_size : ℕ
  pub was_set_cmd : Bool

-- The branch on an error of the device, by the state, before the test of the suppression.
unfoldable pub raise : AlarmState → Flags → AlarmState × Flags
raise as_accept f = (as_accept, record f { is_any_error = true })
raise as_alarm f = (as_alarm, record f { is_any_error = true; is_any_no_ack_error = true })
raise s f = (
  as_alarm,
  record f {
    is_any_error = true;
    is_any_no_ack_error = true;
    is_new_error = true;
    is_new_state = true;
  },
)

unfoldable pub clear_flags : ℕ → Flags → Flags
clear_flags par f =
    if has_suppress par
    then record f { is_any_error = false; is_new_error = false; is_any_no_ack_error = false }
    else f

unfoldable pub settle : AlarmState → Flags → AlarmState × Flags
settle as_accept f = (as_normal, record f { is_new_state = true })
settle as_alarm f = (as_return, record f { is_new_state = true })
settle s f = (s, f)

-- tech_dev_error::evaluate, for the state that the device has.
unfoldable pub evaluate_dev : ℤ → DevError → Flags → DevError × Flags
evaluate_dev state e f =
    let (up, raised) = raise e.error_state f in
    let (down, settled) = settle e.error_state f in
    if is_negative state
    then (record e { error_state = up }, clear_flags e.err_par raised)
    else (record e { error_state = down }, settled)

-- The commands, with those that the source does not know.
pub data ErrorCmd : Type 0 where
  c_cmd_accept c_cmd_suppress c_cmd_unset_suppress c_cmd_other : ErrorCmd

unfoldable pub accept : AlarmState → AlarmState × ℕ
accept as_return = (as_normal, 0)
accept as_alarm = (as_accept, 0)
accept s = (s, 1)

-- tech_dev_error::set_cmd, with its code.
unfoldable pub set_cmd_dev : ErrorCmd → DevError → DevError × ℕ
set_cmd_dev c_cmd_suppress e = (record e { err_par = suppress e.err_par }, 0)
set_cmd_dev c_cmd_unset_suppress e = (record e { err_par = unset_suppress e.err_par }, 0)
set_cmd_dev c_cmd_accept e =
    let (s, res) = accept e.error_state in (record e { error_state = s }, res)
set_cmd_dev c_cmd_other e = (e, 2)

-- tech_obj_error::evaluate
unfoldable pub evaluate_obj : ObjError → Flags → ObjError × Flags
evaluate_obj e f =
    let is_changed = not (length e.errors == e.prev_size) || e.was_set_cmd in
    let f' = record f { is_any_message = f.is_any_message || not (is_nil e.errors) } in
    if is_changed
    then (
      record e { prev_size = length e.errors; was_set_cmd = false },
      record f' { is_new_state = true },
    )
    else (e, f')

-- The message with the number is deleted; `none` where there is no such message.
unfoldable pub delete : ℕ → List ErrInfo → Option (List ErrInfo)
delete n [] = none
delete n (m ∷ ms) =
    let rest = delete n ms in
    if m.n == n then some ms else elim rest [ none ↦ none | some kept ↦ some (m ∷ kept) ]

-- tech_obj_error::set_cmd: any command deletes the message that it names.
unfoldable pub set_cmd_obj : ℕ → ObjError → ObjError × ℕ
set_cmd_obj n e = elim (delete n e.errors) [
  | none ↦ (e, 1)
  | some ms ↦ (record e { errors = ms; was_set_cmd = true }, 0)
]
