-- ===== src/Tests/Plain.antt =====
-- A plant whose devices are those of class device (PAC/common/device/base.cpp), with whole numbers
-- for values, and that it answers to switching as the actions expect.
use ptusa_main.Common.{ℕ, ◌*◌, false, not, ◌==◌, ltb, leb, if◌then◌else◌, arith}
use ptusa_main.Common.Int.{pos}
use ptusa_main.Device
use ptusa_main.Device.{Device}
use ptusa_main.Plant.{Plant, Kind, Env}
use ptusa_main.Plant.Switching.{IsSwitching}

abbrev pub on_device : ℕ → (Device ℕ → Device ℕ) → (ℕ → Device ℕ) → ℕ → Device ℕ
on_device d f w k = if d == k then f (w k) else w k

instance abbrev pub plain : Plant
plain = record {
  World = ℕ → Device ℕ;
  Value = ℕ;
  get_type = λ d. if ltb d 10 then Kind.dt_do else if ltb d 20 then Kind.dt_di else Kind.dt_v;
  on = λ d w. on_device d Device.on w;
  off = λ d w. on_device d (Device.off 0) w;
  set_state = λ n d w. on_device d (Device.set_state (pos n)) w;
  set_value = λ d v w. on_device d (Device.set_value v) w;
  set_seat_wash_state = λ d b w. on_device d (λ x. record x { wash_flag = b }) w;
  is_active = λ w d. Device.is_active (w d);
  get_state = λ w d. (w d).state;
  get_value = λ w d. (w d).value;
  get_manual_mode = λ w d. (w d).is_manual_mode;
  is_opened = λ w d. Device.is_active (w d);
  is_closed = λ w d. not (Device.is_active (w d));
  is_wash_seat_active = λ w d. (w d).wash_flag;
  is_suppressed = λ w d. false;
  zero_value = 0;
  minus_one = 1_000_000;
  is_set = λ v. not (v == 1_000_000);
  ms_le = λ t v. leb t v;
  is_positive_value = λ v. ltb 0 v;
  to_u_int_value = λ v. v;
  to_ms = λ v. v * 1000;
}

pub plain-IsSwitching : IsSwitching plain
unfolding Device.on Device.off Device.set_state Device.is_active
plain-IsSwitching = record {
  off_active = λ d e w. ground arith;
  on_active = λ d e w. ground arith;
  state_active = λ n d e w. ground arith;
  off_manual = λ d e w. ground arith;
  on_manual = λ d e w. ground arith;
  state_manual = λ n d e w. ground arith;
}

-- All devices on, at ten seconds, with every parameter five.
abbrev pub lit : ℕ → Device ℕ
lit _ = record { state = pos 1; value = 7; is_manual_mode = false; wash_flag = false }

abbrev pub at : ℕ → Env plain
at now = record {
  now = now;
  par = λ _. 5;
  mix_flip_period = 180;
  mix_flip_upper_time = 2000;
  mix_flip_lower_time = 1000;
}
