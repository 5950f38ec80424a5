-- ===== src/Valve/Kept.antt =====
-- What the virtual methods that switch a valve leave alone (PAC/common/device/valve.cpp): the class,
-- the mode, the wiring and the fields of the delayed closing.
use ptusa_main.Common.{ℕ, ◌≡◌, ◌≤◌, refl, ◌∙◌, Bool, true, false, if◌then◌else◌, arith}
use ptusa_main.Device
use ptusa_main.Valve.{Settings, Valve, Class}
use ptusa_main.Valve.Base
use ptusa_main.Valve.Do1
use ptusa_main.Valve.Do2
use ptusa_main.Valve.Do1Di1Off
use ptusa_main.Valve.Do1Di1On
use ptusa_main.Valve.Do1Di2
use ptusa_main.Valve.Do2Di2
use ptusa_main.Valve.Bistable
use ptusa_main.Valve.MixProof
use ptusa_main.Valve.BottomMixProof
use ptusa_main.Valve.MiniFlushing
use ptusa_main.Valve.Virtual.{direct_on, direct_on_of, direct_off, direct_off_of}

abbrev pub IsBit : Valve → Type 0
IsBit v = (i : ℕ) → v.outs i ≤ 1

pub record Keeps (v w : Valve) : Type 0 where
  pub class : w.class ≡ v.class
  pub switching : w.is_switching_off ≡ v.is_switching_off
  pub start : w.start_off_time ≡ v.start_off_time
  pub auto : w.was_on_auto ≡ v.was_on_auto
  pub manual : w.dev.is_manual_mode ≡ v.dev.is_manual_mode
  pub wired : w.is_wired ≡ v.is_wired
  pub bit : IsBit v → IsBit w

pub Keeps-refl : (v : Valve) → Keeps v v
Keeps-refl v = record {
  class = refl;
  switching = refl;
  start = refl;
  auto = refl;
  manual = refl;
  wired = refl;
  bit = λ b. b;
}

pub Keeps-trans : {u v w : Valve} → Keeps u v → Keeps v w → Keeps u w
Keeps-trans p q = record {
  class = q.class ∙ p.class;
  switching = q.switching ∙ p.switching;
  start = q.start ∙ p.start;
  auto = q.auto ∙ p.auto;
  manual = q.manual ∙ p.manual;
  wired = q.wired ∙ p.wired;
  bit = λ b. q.bit (p.bit b);
}

pub direct_on_of-Keeps : (c : Class) (e : Settings) (v : Valve) → Keeps v (direct_on_of c e v)
unfolding direct_on_of Device.direct_on Base.direct_on Do1.direct_on Do2.direct_on
    Do1Di1Off.direct_on Do1Di1On.direct_on Do1Di2.direct_on Do2Di2.direct_on Bistable.direct_on
    MixProof.direct_on BottomMixProof.direct_on MiniFlushing.direct_on
direct_on_of-Keeps _ e v = record {
  class = ground arith;
  switching = ground arith;
  start = ground arith;
  auto = ground arith;
  manual = ground arith;
  wired = ground arith;
  bit = λ b i. ground (arith, b i);
}

pub direct_on-Keeps : (e : Settings) (v : Valve) → Keeps v (direct_on e v)
unfolding direct_on
direct_on-Keeps e v = direct_on_of-Keeps v.class e v

pub direct_off_of-Keeps : (c : Class) (e : Settings) (v : Valve) → Keeps v (direct_off_of c e v)
unfolding direct_off_of Device.direct_off Base.direct_off Do1.direct_off Do2.direct_off
    Do1Di1Off.direct_off Do1Di1On.direct_off Do1Di2.direct_off Do2Di2.direct_off Bistable.direct_off
    MixProof.direct_off BottomMixProof.direct_off MiniFlushing.direct_off MixProof.get_valve_state
    BottomMixProof.close_seat BottomMixProof.close_main BottomMixProof.close_mini
direct_off_of-Keeps _ e v = record {
  class = ground arith;
  switching = ground arith;
  start = ground arith;
  auto = ground arith;
  manual = ground arith;
  wired = ground arith;
  bit = λ b i. ground (arith, b i);
}

pub direct_off-Keeps : (e : Settings) (v : Valve) → Keeps v (direct_off e v)
unfolding direct_off
direct_off-Keeps e v = direct_off_of-Keeps v.class e v

pub if-Keeps : {v w u : Valve} (t : Bool) → Keeps v w → Keeps v u → Keeps v (if t then w else u)
if-Keeps true p q = p
if-Keeps false p q = q

pub bistable-Keeps : (e : Settings) (v : Valve) → Keeps v (Bistable.evaluate e v)
unfolding Bistable.evaluate Bistable.finish
bistable-Keeps e v = record {
  class = ground arith;
  switching = ground arith;
  start = ground arith;
  auto = ground arith;
  manual = ground arith;
  wired = ground arith;
  bit = λ b i. ground (arith, b i);
}
