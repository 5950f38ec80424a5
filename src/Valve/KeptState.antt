-- ===== src/Valve/KeptState.antt =====
-- What direct_set_state leaves alone, by the class of the valve (PAC/common/device/valve.cpp).
use ptusa_main.Common.{ℕ, refl, Bool, false, ◌==◌, if◌then◌else◌, arith}
use ptusa_main.Common.Int.{ℤ}
use ptusa_main.Device
use ptusa_main.Valve.{Settings, Valve, Class, get_do, set_do, start_switch, is_equal}
use ptusa_main.Valve.Base
use ptusa_main.Valve.Bistable
use ptusa_main.Valve.MixProof
use ptusa_main.Valve.BottomMixProof
use ptusa_main.Valve.MiniFlushing
use ptusa_main.Valve.Virtual.{
  direct_on_of, direct_off_of, direct_set_state, direct_set_state_of, switch_state,
}
use ptusa_main.Valve.Kept.{
  Keeps, Keeps-refl, Keeps-trans, if-Keeps, direct_on-Keeps, direct_off-Keeps, direct_on_of-Keeps,
  direct_off_of-Keeps,
}

emulate_state-Keeps : (n : ℤ) (v : Valve) → Keeps v (Base.emulate_state n v)
unfolding Base.emulate_state Device.direct_set_state
emulate_state-Keeps n v = record {
  class = ground arith;
  switching = ground arith;
  start = ground arith;
  auto = ground arith;
  manual = ground arith;
  wired = ground arith;
  bit = λ b i. ground (arith, b i);
}

switch_on-Keeps : (e : Settings) (i : ℕ) (v : Valve) → Keeps v (set_do i 1 (start_switch e v))
switch_on-Keeps e i v = record {
  class = refl;
  switching = refl;
  start = refl;
  auto = refl;
  manual = refl;
  wired = refl;
  bit = λ b k. ground (arith, b k);
}

mini_flag-Keeps : (b : Bool) (v : Valve) → Keeps v (record v { is_closing_mini = b })
mini_flag-Keeps b v = record {
  class = ground arith;
  switching = ground arith;
  start = ground arith;
  auto = ground arith;
  manual = ground arith;
  wired = ground arith;
  bit = λ b i. ground (arith, b i);
}

stop-Keeps : (v : Valve) → Keeps v (Bistable.stop v)
unfolding Bistable.stop
stop-Keeps v = record {
  class = ground arith;
  switching = ground arith;
  start = ground arith;
  auto = ground arith;
  manual = ground arith;
  wired = ground arith;
  bit = λ b i. ground (arith, b i);
}

stoped-Keeps : (b : Bool) (v : Valve) → Keeps v (record v { is_stoped = b })
stoped-Keeps b v = record {
  class = ground arith;
  switching = ground arith;
  start = ground arith;
  auto = ground arith;
  manual = ground arith;
  wired = ground arith;
  bit = λ b i. ground (arith, b i);
}

-- A method that switches the valve off or on, by its number, or does the rest.
cases-Keeps :
    {v p q r : Valve} (e : Settings) (n : ℤ)
    → Keeps v p
    → Keeps v q
    → Keeps v r
    → Keeps v (
        if e.is_emulator
        then Base.emulate_state n v
        else if is_equal n 0
        then p
        else if is_equal n 1
        then q
        else r)
cases-Keeps {v} e n p q r =
    if-Keeps e.is_emulator (emulate_state-Keeps n v)
      (if-Keeps (is_equal n 0) p (if-Keeps (is_equal n 1) q r))

switch_state-Keeps : (e : Settings) (n : ℤ) (v : Valve) → Keeps v (switch_state e n v)
unfolding switch_state
switch_state-Keeps e n v =
    cases-Keeps e n (direct_off-Keeps e v) (direct_on-Keeps e v) (Keeps-refl v)

open_seat-Keeps : (e : Settings) (i : ℕ) (v : Valve) → Keeps v (MixProof.open_seat e i v)
unfolding MixProof.open_seat direct_off_of
open_seat-Keeps e i v =
    let off = direct_off_of-Keeps Class.v_mix_proof e v in
    if-Keeps (get_do (MixProof.direct_off e v) i == 0)
      (Keeps-trans off (switch_on-Keeps e i (MixProof.direct_off e v))) off

open_mini-Keeps : (e : Settings) (v : Valve) → Keeps v (BottomMixProof.open_mini e v)
unfolding BottomMixProof.open_mini direct_off_of
open_mini-Keeps e v =
    let w = BottomMixProof.direct_off e v in
    let off =
      Keeps-trans (direct_off_of-Keeps Class.v_bottom_mix_proof e v) (mini_flag-Keeps false w) in
    if-Keeps (0 == get_do w 1)
      (Keeps-trans off (switch_on-Keeps e 1 (record w { is_closing_mini = false }))) off

open_lower-Keeps : (e : Settings) (v : Valve) → Keeps v (BottomMixProof.open_lower e v)
unfolding BottomMixProof.open_lower direct_off_of
open_lower-Keeps e v =
    let off = direct_off_of-Keeps Class.v_bottom_mix_proof e v in
    if-Keeps (0 == get_do (BottomMixProof.direct_off e v) 2)
      (Keeps-trans off (switch_on-Keeps e 2 (BottomMixProof.direct_off e v))) off

flushing-Keeps : (e : Settings) (v : Valve) → Keeps v (MiniFlushing.open_mini e v)
unfolding MiniFlushing.open_mini direct_off_of
flushing-Keeps e v =
    let off = direct_off_of-Keeps Class.v_mini_flushing e v in
    if-Keeps (0 == get_do (MiniFlushing.direct_off e v) 1)
      (Keeps-trans off (switch_on-Keeps e 1 (MiniFlushing.direct_off e v))) off

pub direct_set_state_of-Keeps :
    (c : Class) (e : Settings) (n : ℤ) (v : Valve) → Keeps v (direct_set_state_of c e n v)
unfolding direct_set_state_of direct_on_of direct_off_of Bistable.direct_set_state
    MixProof.direct_set_state BottomMixProof.direct_set_state MiniFlushing.direct_set_state
direct_set_state_of-Keeps Class.v_bistable e n v =
    let w = record v { is_stoped = false } in
    let step = stoped-Keeps false v in
    if-Keeps e.is_emulator (emulate_state-Keeps n v) (
      if-Keeps (is_equal n 5) (stop-Keeps v) (
        if-Keeps (is_equal n 0) (Keeps-trans step (direct_off_of-Keeps Class.v_bistable e w)) (
          if-Keeps (is_equal n 1) (Keeps-trans step (direct_on_of-Keeps Class.v_bistable e w))
            step)))
direct_set_state_of-Keeps Class.v_mix_proof e n v =
    let on = direct_on_of-Keeps Class.v_mix_proof e v in
    cases-Keeps e n (direct_off_of-Keeps Class.v_mix_proof e v) on (
      if-Keeps (is_equal n 2) (open_seat-Keeps e 1 v)
        (if-Keeps (is_equal n 3) (open_seat-Keeps e 2 v) on))
direct_set_state_of-Keeps Class.v_bottom_mix_proof e n v =
    let on = direct_on_of-Keeps Class.v_bottom_mix_proof e v in
    cases-Keeps e n (direct_off_of-Keeps Class.v_bottom_mix_proof e v) on (
      if-Keeps (is_equal n 2) (open_mini-Keeps e v)
        (if-Keeps (is_equal n 3) (open_lower-Keeps e v) on))
direct_set_state_of-Keeps Class.v_mini_flushing e n v =
    let on = direct_on_of-Keeps Class.v_mini_flushing e v in
    let off = direct_off_of-Keeps Class.v_mini_flushing e v in
    cases-Keeps e n off on
      (if-Keeps (is_equal n 2) off (if-Keeps (is_equal n 3) (flushing-Keeps e v) on))
direct_set_state_of-Keeps Class.v_virtual e n v = switch_state-Keeps e n v
direct_set_state_of-Keeps Class.v_do1 e n v = switch_state-Keeps e n v
direct_set_state_of-Keeps Class.v_do2 e n v = switch_state-Keeps e n v
direct_set_state_of-Keeps Class.v_do1_di1_off e n v = switch_state-Keeps e n v
direct_set_state_of-Keeps Class.v_do1_di1_on e n v = switch_state-Keeps e n v
direct_set_state_of-Keeps Class.v_do1_di2 e n v = switch_state-Keeps e n v
direct_set_state_of-Keeps Class.v_do2_di2 e n v = switch_state-Keeps e n v

pub direct_set_state-Keeps : (e : Settings) (n : ℤ) (v : Valve) → Keeps v (direct_set_state e n v)
unfolding direct_set_state
direct_set_state-Keeps e n v = direct_set_state_of-Keeps v.class e n v
