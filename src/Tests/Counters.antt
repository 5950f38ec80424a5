-- ===== src/Tests/Counters.antt =====
-- The theorem on counters at a concrete input.
use ptusa_main.Common.{ℕ, ◌≡◌, ◌+◌, ◌/◌, List, [], ◌∷◌, true, false, refl, arith}
use ptusa_main.Counter.{Reading, Meter, Counter, Daily, s_work}
use ptusa_main.Counter.Pulses.{Counts, no_reading, reading, run, val-run}

abbrev register : ℕ → Reading
register raw = record {
  now = 1000;
  is_emulator = false;
  raw = raw;
  max_raw = 65535;
  motors = [];
  is_low_flow = true;
  pump_dt = 5000;
  yday = 100;
}

-- The register passes its maximum between the two readings.
abbrev near_maximum : List Reading
near_maximum = register 65530 ∷ register 94 ∷ []

near_maximum-Counts : Counts 65500 near_maximum 65630
near_maximum-Counts =
    reading 30 (ground arith) refl refl (reading 100 (ground arith) refl refl no_reading)

abbrev day : Daily
day = record { is_paused = false; value = 0; prev_value = 0 }

abbrev meter : ℕ → Meter
meter last = record { val = 500; last_read_val = last; is_first = false }

abbrev working : Counter
working = record {
  state = s_work;
  is_manual_mode = false;
  start_pump_working_time = 0;
  counter_prev_value = 0;
  total = meter 65500;
  abs = meter 65500;
  day_t1 = day;
  day_t2 = day;
  c_day = 100;
}

-- Of the 130 pulses one is lost.
val-run_example :
    (run near_maximum working).abs.val + 65500 + 65630 / 65536
    ≡ working.abs.val + 65630 + 65500 / 65536
val-run_example =
    val-run 65500 65630 near_maximum working near_maximum-Counts refl refl (ground arith)
