-- ===== src/Tests/AsValves.antt =====
-- The theorem on the valves on AS-i at a concrete input.
use ptusa_main.Common.{◌≡◌, false, refl, arith}
use ptusa_main.Common.Int.{pos}
use ptusa_main.Valve.{Settings}
use ptusa_main.AsValve.{Bus, AsValve, get_state_data}
use ptusa_main.AsValve.Methods.{direct_set_state}
use ptusa_main.AsValve.ReadBack.{state_after, get_state_data-direct_set_state}

abbrev gateway : Settings
gateway = record {
  now = 4000;
  is_emulator = false;
  v_off_delay_time = 1000;
  v_bottom_off_delay_time = 1200;
}

abbrev silent : Bus
silent = record { ao_read = λ i j. false; ao_write = λ i j. false; ai = λ i j. false }

abbrev valve_34 : AsValve
valve_34 = record {
  dev = record { state = pos 0; value = 0; is_manual_mode = false; wash_flag = false };
  as_number = 34;
  reverse_seat_connection = false;
  on_fb = false;
  off_fb = false;
  start_switch_time = 0;
  start_err_time = 0;
  p_on_time = 1000;
}

-- The lower seat of valve 34 is opened, and valve 33 has the same byte.
get_state_data-direct_set_state_example :
    (state_after gateway 3 silent valve_34 ≡ pos 3)
    × (get_state_data (direct_set_state gateway (pos 3) silent valve_34).0.ao_write 33 2
        ≡ get_state_data silent.ao_write 33 2)
get_state_data-direct_set_state_example =
    get_state_data-direct_set_state gateway 3 33 2 silent valve_34 refl (ground arith) refl
      (ground arith)
