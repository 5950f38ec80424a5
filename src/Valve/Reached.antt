-- ===== src/Valve/Reached.antt =====
-- The state that direct_set_state leads to, by the class of the valve (PAC/common/device/valve.cpp).
use ptusa_main.Common.{ℕ, ◌≡◌, ◌<◌, refl, ap, ◌∙◌, inl, inr, true, arith, Bool-cases}
use mathlib.Core.Bool.{false≢true}
use ptusa_main.Common.Int.{ℤ, pos}
use ptusa_main.Device
use ptusa_main.Valve.{Settings, Valve, Class}
use ptusa_main.Valve.Base
use ptusa_main.Valve.Do1
use ptusa_main.Valve.Do2
use ptusa_main.Valve.Do1Di1Off
use ptusa_main.Valve.Do1Di1On
use ptusa_main.Valve.Do1Di2
use ptusa_main.Valve.Do2Di2
use ptusa_main.Valve.Bistable
use ptusa_main.Valve.MixProof
use ptusa_main.Valve.BottomMixProof
use ptusa_main.Valve.MiniFlushing
use ptusa_main.Valve.KeptState.{direct_set_state_of-Keeps}
use ptusa_main.Valve.Seats.{mix_proof_state}
use ptusa_main.Valve.Switched.{
  IsConnected, is_plain, direct_on-get_valve_state, direct_on_of-get_valve_state_of,
  direct_off_of-get_valve_state_of,
}
use ptusa_main.Valve.Virtual.{
  get_valve_state, get_valve_state_of, direct_set_state, direct_set_state_of, switch_state,
  direct_on_of, direct_off_of,
}

-- The commands of a class are the numbers below this one: off and on, and the two seats.
abbrev pub commands_of : Class → ℕ
commands_of Class.v_mix_proof = 4
commands_of _ = 2

emulated_of :
    (c : Class) (e : Settings) (n : ℤ) (v : Valve)
    → e.is_emulator ≡ true
    → get_valve_state_of c e (Base.emulate_state n v) ≡ n
unfolding get_valve_state_of Base.emulate_state Device.direct_set_state Base.get_valve_state
    Do1.get_valve_state Do2.get_state Do1Di1Off.get_valve_state Do1Di1On.get_valve_state
    Do1Di2.get_valve_state Do2Di2.get_valve_state Bistable.get_valve_state MixProof.get_valve_state
    BottomMixProof.get_valve_state MiniFlushing.get_valve_state
emulated_of _ e n v h = ground (arith, h)

emulated :
    (e : Settings) (n : ℤ) (v : Valve)
    → e.is_emulator ≡ true
    → get_valve_state e (Base.emulate_state n v) ≡ n
unfolding get_valve_state Base.emulate_state
emulated e n v h = emulated_of v.class e n v h

switch_reached :
    (e : Settings) (n : ℕ) (v : Valve)
    → IsConnected v
    → is_plain v.class ≡ true
    → n < 2
    → get_valve_state e (switch_state e (pos n) v) ≡ pos n
unfolding switch_state
switch_reached e n v k c b = elim (Bool-cases e.is_emulator) [
  | inl emu ↦ ground (arith, emu, emulated e (pos n) v emu)
  | inr real ↦ ground (arith, real, direct_on-get_valve_state e v k c)
]

flushing_reached :
    (e : Settings) (n : ℕ) (v : Valve)
    → IsConnected v
    → n < 2
    → get_valve_state_of Class.v_mini_flushing e
        (direct_set_state_of Class.v_mini_flushing e (pos n) v)
      ≡ pos n
unfolding direct_set_state_of MiniFlushing.direct_set_state direct_on_of direct_off_of
flushing_reached e n v k b = elim (Bool-cases e.is_emulator) [
  | inl emu ↦ ground (arith, emu, emulated_of Class.v_mini_flushing e (pos n) v emu)
  | inr real ↦ ground (
    arith,
    real,
    direct_on_of-get_valve_state_of Class.v_mini_flushing e v k refl,
    direct_off_of-get_valve_state_of Class.v_mini_flushing e v k refl,
  )
]

mix_reached :
    (e : Settings) (n : ℕ) (v : Valve)
    → IsConnected v
    → n < 4
    → get_valve_state_of Class.v_mix_proof e (direct_set_state_of Class.v_mix_proof e (pos n) v)
      ≡ pos n
unfolding get_valve_state_of direct_set_state_of
mix_reached e n v k b = mix_proof_state e n v k b

-- From the methods of the class to the virtual method.
of_class :
    (c : Class) (e : Settings) (n : ℕ) (v : Valve)
    → v.class ≡ c
    → get_valve_state_of c e (direct_set_state_of c e (pos n) v) ≡ pos n
    → get_valve_state e (direct_set_state_of c e (pos n) v) ≡ pos n
unfolding get_valve_state
of_class c e n v p h =
    let w = direct_set_state_of c e (pos n) v in
    ap (λ d. get_valve_state_of d e w) ((direct_set_state_of-Keeps c e (pos n) v).class ∙ p) ∙ h

reached_of :
    (c : Class) (e : Settings) (n : ℕ) (v : Valve)
    → v.class ≡ c
    → IsConnected v
    → is_plain c ≡ true
    → n < commands_of c
    → get_valve_state e (direct_set_state_of c e (pos n) v) ≡ pos n
unfolding direct_set_state_of
reached_of Class.v_mix_proof e n v p k c b =
    of_class Class.v_mix_proof e n v p (mix_reached e n v k b)
reached_of Class.v_mini_flushing e n v p k c b =
    of_class Class.v_mini_flushing e n v p (flushing_reached e n v k b)
reached_of Class.v_bistable e n v p k c b = elim (false≢true c) [ ]
reached_of Class.v_bottom_mix_proof e n v p k c b = elim (false≢true c) [ ]
reached_of Class.v_virtual e n v p k c b = switch_reached e n v k (ap is_plain p ∙ c) b
reached_of Class.v_do1 e n v p k c b = switch_reached e n v k (ap is_plain p ∙ c) b
reached_of Class.v_do2 e n v p k c b = switch_reached e n v k (ap is_plain p ∙ c) b
reached_of Class.v_do1_di1_off e n v p k c b = switch_reached e n v k (ap is_plain p ∙ c) b
reached_of Class.v_do1_di1_on e n v p k c b = switch_reached e n v k (ap is_plain p ∙ c) b
reached_of Class.v_do1_di2 e n v p k c b = switch_reached e n v k (ap is_plain p ∙ c) b
reached_of Class.v_do2_di2 e n v p k c b = switch_reached e n v k (ap is_plain p ∙ c) b

-- For a valve whose channels are all in place and hold 0 or 1, and which is not bistable and not of
-- the classes with two outputs and two inputs or with a mini valve that closes later,
-- direct_set_state to off or on, and of a mixproof valve to either seat too, leads to that state,
-- in the emulator too.
pub get_valve_state-direct_set_state :
    (e : Settings) (n : ℕ) (v : Valve)
    → IsConnected v
    → is_plain v.class ≡ true
    → n < commands_of v.class
    → get_valve_state e (direct_set_state e (pos n) v) ≡ pos n
unfolding direct_set_state
get_valve_state-direct_set_state e n v k c b = reached_of v.class e n v refl k c b
