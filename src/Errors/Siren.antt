-- ===== src/Errors/Siren.antt =====
-- siren_lights_manager of common/PAC-driver/g_errors.cpp. What it asks of the critical errors and of
-- the technological objects is given with the call.
use ptusa_main.Common.{
  ℕ, Bool, true, false, ◌&&◌, ◌||◌, not, Option, none, some, ltb, ◌==◌, if◌then◌else◌,
}
use ptusa_main.Plant.{Plant, get_delta_millisec}
use ptusa_main.Errors.Alarm.{Flags}

pub record Around : Type 0 where
  pub now : ℕ
  pub is_any_critical_error : Bool
  pub critical_id : ℕ
  pub is_any_important_mode : Bool

-- The static variables of a blinking light: whether its step is 1, and the times.
pub record Blink : Type 0 where
  pub is_dark : Bool
  pub start_blink_time : ℕ
  pub start_wait_time : ℕ

pub record Lights : Type 0 where
  pub green : ℕ
  pub red : ℕ
  pub yellow : ℕ
  pub srn : ℕ

pub record Siren : Type 0 where
  pub lights : Option Lights
  pub is_red_built_in_blink : Bool
  pub critical_error_n : ℕ
  pub st_time : ℕ
  pub manual_mode : ℕ
  pub red_blink : Blink
  pub yellow_blink : Blink

-- One round of the switch on the step: the new variables and whether the light is turned on.
unfoldable pub blink : ℕ → ℕ → Blink → Blink × Bool
blink period now b =
    if b.is_dark
    then (
      if ltb period (get_delta_millisec now b.start_wait_time)
          then record b { start_blink_time = now; is_dark = false }
          else b,
      false,
    )
    else (
      if ltb period (get_delta_millisec now b.start_blink_time)
          then record b { start_wait_time = now; is_dark = true }
          else b,
      true,
    )

-- init
unfoldable pub init : ℕ → ℕ → ℕ → ℕ → Siren → Siren
init red yellow green srn s = record s {
  lights = some (record { green = green; red = red; yellow = yellow; srn = srn });
}

-- The controller has just started, or the siren is in the manual mode.
unfoldable pub is_idle : Around → Siren → Bool
is_idle a s = ltb (get_delta_millisec a.now s.st_time) 5000 || not (s.manual_mode == 0)

module _ ⦃plant : Plant⦄ where
  open plant use {World, on, off}

  abbrev pub on_if : Bool → ℕ → World → World
  on_if b d w = if b then on d w else w

  abbrev pub off_if : Bool → ℕ → World → World
  off_if b d w = if b then off d w else w

  unfoldable pub eval_red : Around → Flags → Lights → Siren → World → Siren × World
  eval_red a f l s w =
      let dark = off l.red w in
      let (b, lit) = blink 250 a.now s.red_blink in
      if a.is_any_critical_error || f.is_any_error
      then (if s.is_red_built_in_blink
          then (s, on l.red dark)
          else (record s { red_blink = b }, on_if lit l.red dark))
      else (s, dark)

  -- The siren is turned on by a new critical error and by a new error of a device.
  unfoldable pub eval_new : Around → Flags → Lights → Siren → World → Siren × World
  eval_new a f l s w =
      let is_new = not (a.critical_id == s.critical_error_n) in
      (
        if is_new then record s { critical_error_n = a.critical_id } else s,
        on_if f.is_new_error l.srn (on_if is_new l.srn w),
      )

  unfoldable pub eval_yellow : Around → Flags → Lights → Siren → World → Siren × World
  eval_yellow a f l s w =
      let dark = off l.yellow w in
      let (b, lit) = blink 1000 a.now s.yellow_blink in
      if f.is_any_message
      then (record s { yellow_blink = b }, on_if lit l.yellow dark)
      else (s, dark)

  unfoldable pub eval_off : Around → Flags → Lights → World → World
  eval_off a f l w = off_if (not a.is_any_critical_error && not f.is_any_no_ack_error) l.srn w

  unfoldable pub eval_green : Around → Lights → World → World
  eval_green a l w = on_if a.is_any_important_mode l.green (off l.green w)

  -- The part of `eval` after the tests for the start of the controller and the manual mode.
  unfoldable pub eval_lights : Around → Flags → Lights → Siren → World → Siren × World
  eval_lights a f l s w =
      let (s1, w1) = eval_red a f l s w in
      let (s2, w2) = eval_new a f l s1 w1 in
      let (s3, w3) = eval_yellow a f l s2 w2 in (s3, eval_green a l (eval_off a f l w3))

  -- eval
  unfoldable pub eval : Around → Flags → Siren → World → Siren × World
  eval a f s w = elim s.lights [
    | none ↦ (s, w)
    | some l ↦
        if is_idle a s
        then (record s { critical_error_n = a.critical_id }, w)
        else eval_lights a f l s w
  ]

-- The constructor, set_red_blink, and set_cmd for the property MANUAL_MODE.
unfoldable pub new_siren : ℕ → Siren
new_siren now = record {
  lights = none;
  is_red_built_in_blink = false;
  critical_error_n = 0;
  st_time = now;
  manual_mode = 0;
  red_blink = record { is_dark = false; start_blink_time = 0; start_wait_time = 0 };
  yellow_blink = record { is_dark = false; start_blink_time = 0; start_wait_time = 0 };
}

unfoldable pub set_red_blink : Bool → Siren → Siren
set_red_blink type s = record s { is_red_built_in_blink = type }

unfoldable pub set_manual_mode : Bool → Siren → Siren
set_manual_mode is_positive s = record s { manual_mode = if is_positive then 1 else 0 }
