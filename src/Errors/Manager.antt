-- ===== src/Errors/Manager.antt =====
-- errors_manager of common/PAC-driver/g_errors.cpp.
use ptusa_main.Common.{ℕ, ◌+◌, ◌%◌, ◌^◌, ◌&&◌, List, [], ◌∷◌, ◌++◌, map, ◌==◌, if◌then◌else◌}
use ptusa_main.Common.Int.{ℤ}
use ptusa_main.Errors.Alarm.{
  Flags, no_flags, DevError, ObjError, ErrorCmd, evaluate_dev, evaluate_obj, set_cmd_dev,
  set_cmd_obj,
}

-- A base_error, by its class.
pub data Error : Type 0 where
  dev_error : DevError → Error
  obj_error : ObjError → Error

-- The singleton with the static flags as they are between two rounds.
pub record Manager : Type 0 where
  pub errors_id : ℕ
  pub s_errors_vector : List Error
  pub flags : Flags

-- The constant TE_TYPE, and the types as `unsigned char`.
abbrev pub te_type : ℕ
te_type = 100

unfoldable pub get_object_type : Error → ℕ
get_object_type (dev_error e) = e.object_type
get_object_type (obj_error e) = (te_type + e.object_type) % 2 ^ 8

unfoldable pub get_object_n : Error → ℕ
get_object_n (dev_error e) = e.object_n
get_object_n (obj_error e) = e.object_n

unfoldable pub set_cmd_error : ErrorCmd → ℕ → Error → Error × ℕ
set_cmd_error c n (dev_error e) = let (e', res) = set_cmd_dev c e in (dev_error e', res)
set_cmd_error c n (obj_error e) = let (e', res) = set_cmd_obj n e in (obj_error e', res)

-- The virtual `evaluate`, on the states that the devices have.
unfoldable pub evaluate_error : (ℕ → ℤ) → Error → Flags → Error × Flags
evaluate_error states (dev_error e) f =
    let (e', f') = evaluate_dev (states e.simple_device) e f in (dev_error e', f')
evaluate_error states (obj_error e) f = let (e', f') = evaluate_obj e f in (obj_error e', f')

unfoldable pub evaluate_errors : (ℕ → ℤ) → List Error → Flags → List Error × Flags
evaluate_errors states [] f = ([], f)
evaluate_errors states (e ∷ es) f =
    let (e', f1) = evaluate_error states e f in
    let (es', f2) = evaluate_errors states es f1 in (e' ∷ es', f2)

-- errors_id is an unsigned integer of 16 bits.
abbrev pub next_id : ℕ → ℕ
next_id id = (id + 1) % 2 ^ 16

unfoldable pub evaluate : (ℕ → ℤ) → Manager → Manager
evaluate states m =
    let (es, f) = evaluate_errors states m.s_errors_vector no_flags in
    record {
      errors_id = if f.is_new_state then next_id m.errors_id else m.errors_id;
      s_errors_vector = es;
      flags = f;
    }

unfoldable pub add_error : Error → Manager → Manager
add_error e m = record m { s_errors_vector = m.s_errors_vector ++ e ∷ [] }

-- The first error of the object, and the code of its `set_cmd`; 1 where there is none.
unfoldable pub set_cmd_errors : ErrorCmd → ℕ → ℕ → ℕ → List Error → List Error × ℕ
set_cmd_errors c object_type object_n n [] = ([], 1)
set_cmd_errors c object_type object_n n (e ∷ es) =
    let (e', res) = set_cmd_error c n e in
    let (es', rest) = set_cmd_errors c object_type object_n n es in
    if get_object_type e == object_type && get_object_n e == object_n
    then (e' ∷ es, res)
    else (e ∷ es', rest)

unfoldable pub set_cmd : ErrorCmd → ℕ → ℕ → ℕ → Manager → Manager
set_cmd c object_type object_n n m =
    let (es, res) = set_cmd_errors c object_type object_n n m.s_errors_vector in
    record m {
      s_errors_vector = es;
      errors_id = if res == 0 then next_id m.errors_id else m.errors_id;
    }

-- reset_errors_params and clear. The parameters of an object's error are never read.
unfoldable pub reset_error : Error → Error
reset_error (dev_error e) = dev_error (record e { err_par = 0 })
reset_error (obj_error e) = obj_error e

unfoldable pub reset_errors_params : Manager → Manager
reset_errors_params m = record m { s_errors_vector = map reset_error m.s_errors_vector }

unfoldable pub clear : Manager → Manager
clear m = record m { s_errors_vector = []; errors_id = 0 }
