-- ===== src/Valve/Switched.antt =====
-- What direct_on and direct_off of the classes of valves lead to (PAC/common/device/valve.cpp).
use ptusa_main.Common.{ℕ, ◌≡◌, ◌≤◌, ap, ◌∙◌, Bool, true, false, ◌&&◌, not, ◌==◌, arith}
use ptusa_main.Device
use ptusa_main.Valve.{Settings, Valve, Class, v_on, v_off, get_do}
use ptusa_main.Valve.Base
use ptusa_main.Valve.Do1
use ptusa_main.Valve.Do2
use ptusa_main.Valve.Do1Di1Off
use ptusa_main.Valve.Do1Di1On
use ptusa_main.Valve.Do1Di2
use ptusa_main.Valve.Do2Di2
use ptusa_main.Valve.MixProof
use ptusa_main.Valve.BottomMixProof
use ptusa_main.Valve.MiniFlushing
use ptusa_main.Valve.Kept.{direct_on-Keeps, direct_off-Keeps}
use ptusa_main.Valve.Virtual.{
  direct_on, direct_on_of, direct_off, direct_off_of, get_valve_state, get_valve_state_of,
}

-- Every channel of the valve has a place, where 0 or 1 is written.
pub record IsConnected (v : Valve) : Type 0 where
  pub wired : (i : ℕ) → v.is_wired i ≡ true
  pub bit : (i : ℕ) → v.outs i ≤ 1

-- The classes whose outputs alone tell the state, and tell it as `direct_on` and `direct_off` say.
abbrev pub is_direct : Class → Bool
is_direct Class.v_do2_di2 = false
is_direct Class.v_bistable = false
is_direct _ = true

abbrev pub is_bottom : Class → Bool
is_bottom Class.v_bottom_mix_proof = true
is_bottom _ = false

pub direct_on_of-get_valve_state_of :
    (c : Class) (e : Settings) (v : Valve)
    → IsConnected v
    → is_direct c ≡ true
    → get_valve_state_of c e (direct_on_of c e v) ≡ v_on
unfolding get_valve_state_of direct_on_of Device.direct_on Base.direct_on Base.get_valve_state
    Do1.direct_on Do1.get_valve_state Do2.direct_on Do2.get_state Do1Di1Off.direct_on
    Do1Di1Off.get_valve_state Do1Di1On.direct_on Do1Di1On.get_valve_state Do1Di2.direct_on
    Do1Di2.get_valve_state Do2Di2.direct_on Do2Di2.get_valve_state MixProof.direct_on
    MixProof.get_valve_state BottomMixProof.direct_on BottomMixProof.get_valve_state
    MiniFlushing.direct_on MiniFlushing.get_valve_state
direct_on_of-get_valve_state_of _ e v k h = ground (arith, k.wired 0, k.bit 0, k.wired 1, k.wired 2)

pub direct_off_of-get_valve_state_of :
    (c : Class) (e : Settings) (v : Valve)
    → IsConnected v
    → is_direct c && not (is_bottom c) ≡ true
    → get_valve_state_of c e (direct_off_of c e v) ≡ v_off
unfolding get_valve_state_of direct_off_of Device.direct_off Base.direct_off Base.get_valve_state
    Do1.direct_off Do1.get_valve_state Do2.direct_off Do2.get_state Do1Di1Off.direct_off
    Do1Di1Off.get_valve_state Do1Di1On.direct_off Do1Di1On.get_valve_state Do1Di2.direct_off
    Do1Di2.get_valve_state Do2Di2.direct_off Do2Di2.get_valve_state MixProof.direct_off
    MixProof.get_valve_state BottomMixProof.direct_off BottomMixProof.get_valve_state
    MiniFlushing.direct_off MiniFlushing.get_valve_state
direct_off_of-get_valve_state_of _ e v k h =
    ground (arith, k.wired 0, k.bit 0, k.wired 1, k.wired 2)

abbrev pub is_plain : Class → Bool
is_plain c = is_direct c && not (is_bottom c)

-- The same through the virtual methods.
pub direct_on-get_valve_state :
    (e : Settings) (v : Valve)
    → IsConnected v
    → is_plain v.class ≡ true
    → (get_valve_state e (direct_on e v) ≡ v_on) × (get_valve_state e (direct_off e v) ≡ v_off)
unfolding get_valve_state direct_on direct_off
direct_on-get_valve_state e v k h = (
  ap (λ c. get_valve_state_of c e (direct_on e v)) (direct_on-Keeps e v).class
      ∙ direct_on_of-get_valve_state_of v.class e v k (ground (arith, h)),
  ap (λ c. get_valve_state_of c e (direct_off e v)) (direct_off-Keeps e v).class
      ∙ direct_off_of-get_valve_state_of v.class e v k h,
)

Do2Di2_of :
    (e : Settings) (v : Valve)
    → IsConnected v
    → e.is_emulator ≡ false
    → not (get_do v 0 == get_do v 1) ≡ true
    → (get_valve_state_of Class.v_do2_di2 e (direct_on_of Class.v_do2_di2 e v) ≡ v_off)
      × (get_valve_state_of Class.v_do2_di2 e (direct_off_of Class.v_do2_di2 e v) ≡ v_on)
unfolding get_valve_state_of direct_on_of direct_off_of Do2Di2.direct_on Do2Di2.direct_off
    Do2Di2.get_valve_state
Do2Di2_of e v k h n = ground (arith, k.wired 0, k.bit 0, k.wired 1, k.bit 1)

-- Outside the emulator, a valve with two outputs and two inputs whose channels are in place and
-- whose outputs differ is in the state off after direct_on and in the state on after direct_off.
pub direct_on_reversed :
    (e : Settings) (v : Valve)
    → IsConnected v
    → v.class ≡ Class.v_do2_di2
    → e.is_emulator ≡ false
    → not (get_do v 0 == get_do v 1) ≡ true
    → (get_valve_state e (direct_on e v) ≡ v_off) × (get_valve_state e (direct_off e v) ≡ v_on)
unfolding get_valve_state direct_on direct_off
direct_on_reversed e v k c h n = (
  ap (λ d. get_valve_state_of d e (direct_on e v)) ((direct_on-Keeps e v).class ∙ c)
      ∙ ap (λ d. get_valve_state_of Class.v_do2_di2 e (direct_on_of d e v)) c
      ∙ (Do2Di2_of e v k h n).0,
  ap (λ d. get_valve_state_of d e (direct_off e v)) ((direct_off-Keeps e v).class ∙ c)
      ∙ ap (λ d. get_valve_state_of Class.v_do2_di2 e (direct_off_of d e v)) c
      ∙ (Do2Di2_of e v k h n).1,
)
