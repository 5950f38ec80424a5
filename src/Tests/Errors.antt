-- ===== src/Tests/Errors.antt =====
-- The theorems on errors, and on the siren, at concrete inputs.
use ptusa_main.Common.{ℕ, ◌≡◌, refl, true, false, some, List, [], ◌∷◌}
use ptusa_main.Common.Int.{ℤ, pos, negsuc}
use ptusa_main.Plant.{get_delta_millisec}
use ptusa_main.Errors.Alarm.{as_normal, DevError, ObjError, c_cmd_accept, no_flags, err_alarm}
use ptusa_main.Errors.Manager.{dev_error, obj_error, Manager}
use ptusa_main.Errors.Siren.{Around, Lights, Siren, Blink, eval, is_idle}
use ptusa_main.Errors.Acknowledged.{Event, round, command, run, to_latch, run-to_latch}
use ptusa_main.Errors.Sound.{sound, is_active-eval}
use ptusa_main.Tests.Plain.{plain, plain-IsSwitching, lit}

-- Device 1 is in error, device 2 too, and the error of device 2 is suppressed.
abbrev broken : ℕ → ℤ
broken _ = negsuc 0

abbrev loud : DevError
loud = record {
  simple_device = 1;
  object_type = 0;
  object_n = 1;
  err_par = 0;
  error_state = as_normal;
}

abbrev hidden : DevError
hidden = record {
  simple_device = 2;
  object_type = 0;
  object_n = 2;
  err_par = 4;
  error_state = as_normal;
}

abbrev tank : ObjError
tank = record {
  errors = (record { type = err_alarm; n = 3 }) ∷ [];
  object_type = 1;
  object_n = 1;
  prev_size = 0;
  was_set_cmd = false;
}

abbrev one_loud : Manager
one_loud = record {
  errors_id = 65_535;
  s_errors_vector = dev_error loud ∷ obj_error tank ∷ [];
  flags = no_flags;
}

abbrev one_hidden : Manager
one_hidden = record {
  errors_id = 7;
  s_errors_vector = dev_error loud ∷ dev_error hidden ∷ [];
  flags = no_flags;
}

abbrev story : List Event
story = round (negsuc 0) ∷ command c_cmd_accept ∷ round (pos 0) ∷ round (negsuc 0) ∷ []

run-to_latch_example :
    to_latch (run story loud).error_state ≡ record { present = true; acked = false }
run-to_latch_example = run-to_latch story loud

abbrev steady : Blink
steady = record { is_dark = false; start_blink_time = 0; start_wait_time = 0 }

abbrev four : Lights
four = record { green = 1; red = 2; yellow = 3; srn = 4 }

abbrev tower : Siren
tower = record {
  lights = some four;
  is_red_built_in_blink = false;
  critical_error_n = 0;
  st_time = 0;
  manual_mode = 0;
  red_blink = steady;
  yellow_blink = steady;
}

abbrev later : Around
later = record {
  now = 9000;
  is_any_critical_error = false;
  critical_id = 1;
  is_any_important_mode = true;
}

is_active-eval_example :
    plain.is_active (eval later no_flags tower lit).1 4
    ≡ sound later no_flags 0 (plain.is_active lit 4)
unfolding is_idle get_delta_millisec
is_active-eval_example =
    is_active-eval plain-IsSwitching later no_flags four tower lit refl refl refl refl refl refl
