-- ===== src/Valve/InMode.antt =====
-- The manual mode in the codes of valve::get_state (PAC/common/device/valve.cpp), whose source has
-- each case twice.
use ptusa_main.Common.{
  ◌≡◌, refl, Bool, true, false, ◌||◌, not, ◌==◌, ◌+◌, ◌-◌, if◌then◌else◌, arith, ltb,
}
use ptusa_main.Common.Int.{ℤ, pos, negsuc}
use ptusa_main.Plant.{get_delta_millisec}
use ptusa_main.Valve.{Settings, Valve, Class, get_do, get_di, start_switch}
use ptusa_main.Valve.Base
use ptusa_main.Valve.Do1Di1Off
use ptusa_main.Valve.Do1Di1On
use ptusa_main.Valve.Do1
use ptusa_main.Valve.Do2
use ptusa_main.Valve.Do1Di2
use ptusa_main.Valve.Do2Di2
use ptusa_main.Valve.Bistable
use ptusa_main.Valve.MixProof
use ptusa_main.Valve.BottomMixProof
use ptusa_main.Valve.MiniFlushing
use ptusa_main.Valve.State.{
  valve_get_state, state_code, lower_seat_state, upper_seat_state, on_state, off_state, read_fb,
}
use ptusa_main.Valve.Virtual.{get_valve_state, get_fb_state, get_fb_state_of, get_valve_state_of}

-- The code that the same valve has in the manual mode.
abbrev pub to_manual : ℤ → ℤ
to_manual (pos n) =
    if n == 5 || n == 100
    then pos n
    else if n == 40 || n == 41
    then pos (n + 2)
    else if n == 32 || n == 33
    then pos (n - 10)
    else pos (n + 20)
to_manual (negsuc n) = negsuc (n + 10)

-- The same valve, in the manual mode or not.
abbrev pub in_mode : Bool → Valve → Valve
in_mode b v = record v { dev = record v.dev { is_manual_mode = b } }

abbrev pub both_in_mode : Bool → Valve × Bool → Valve × Bool
both_in_mode b (v, ok) = (in_mode b v, ok)

if-in_mode :
    (m a t : Bool) (v w : Valve) (b : Bool)
    → (if a then (in_mode m v, true) else if t then (in_mode m w, true) else (in_mode m v, b))
      ≡ both_in_mode m (if a then (v, true) else if t then (w, true) else (v, b))
if-in_mode m true t v w b = refl
if-in_mode m false true v w b = refl
if-in_mode m false false v w b = refl

get_fb_state_of-in_mode :
    (c : Class) (m : Bool) (e : Settings) (v : Valve)
    → get_fb_state_of c e (in_mode m v) ≡ both_in_mode m (get_fb_state_of c e v)
unfolding get_fb_state_of Do1Di1Off.get_fb_state Do1Di1On.get_fb_state Base.get_fb_state
    Do1.get_fb_state Do2.get_fb_state Do1Di2.get_fb_state Do2Di2.get_fb_state Bistable.get_fb_state
    MixProof.get_fb_state BottomMixProof.get_fb_state MiniFlushing.get_fb_state
get_fb_state_of-in_mode Class.v_do1_di1_off m e v =
    if-in_mode m e.is_emulator (not (get_do v 0 == get_di v 0)) v (start_switch e v)
      (ltb (get_delta_millisec e.now v.start_switch_time) v.p_on_time)
get_fb_state_of-in_mode Class.v_do1_di1_on m e v =
    if-in_mode m e.is_emulator (get_do v 0 == get_di v 0) v (start_switch e v)
      (ltb (get_delta_millisec e.now v.start_switch_time) v.p_on_time)
get_fb_state_of-in_mode Class.v_virtual m e v = refl
get_fb_state_of-in_mode Class.v_do1 m e v = refl
get_fb_state_of-in_mode Class.v_do2 m e v = refl
get_fb_state_of-in_mode Class.v_do1_di2 m e v = refl
get_fb_state_of-in_mode Class.v_do2_di2 m e v = refl
get_fb_state_of-in_mode Class.v_bistable m e v = refl
get_fb_state_of-in_mode Class.v_mix_proof m e v = refl
get_fb_state_of-in_mode Class.v_bottom_mix_proof m e v = refl
get_fb_state_of-in_mode Class.v_mini_flushing m e v = refl

get_valve_state_of-in_mode :
    (c : Class) (m : Bool) (e : Settings) (v : Valve)
    → get_valve_state_of c e (in_mode m v) ≡ get_valve_state_of c e v
unfolding get_valve_state_of Base.get_valve_state Do1.get_valve_state Do2.get_state
    Do1Di1Off.get_valve_state Do1Di1On.get_valve_state Do1Di2.get_valve_state Do2Di2.get_valve_state
    Bistable.get_valve_state MixProof.get_valve_state BottomMixProof.get_valve_state
    MiniFlushing.get_valve_state
get_valve_state_of-in_mode Class.v_virtual m e v = refl
get_valve_state_of-in_mode Class.v_do1 m e v = refl
get_valve_state_of-in_mode Class.v_do2 m e v = refl
get_valve_state_of-in_mode Class.v_do1_di1_off m e v = refl
get_valve_state_of-in_mode Class.v_do1_di1_on m e v = refl
get_valve_state_of-in_mode Class.v_do1_di2 m e v = refl
get_valve_state_of-in_mode Class.v_do2_di2 m e v = refl
get_valve_state_of-in_mode Class.v_bistable m e v = refl
get_valve_state_of-in_mode Class.v_mix_proof m e v = refl
get_valve_state_of-in_mode Class.v_bottom_mix_proof m e v = refl
get_valve_state_of-in_mode Class.v_mini_flushing m e v = refl

read_fb-in_mode :
    (m : Bool) (e : Settings) (v : Valve) → read_fb e (in_mode m v) ≡ both_in_mode m (read_fb e v)
unfolding read_fb get_fb_state
read_fb-in_mode m e v = ground (arith, get_fb_state_of-in_mode v.class m e v)

state_code-in_mode :
    (e : Settings) (st : ℤ) (r : Valve × Bool) (v : Valve)
    → (state_code e st (both_in_mode true r) (in_mode true v)).1
      ≡ to_manual (state_code e st (both_in_mode false r) (in_mode false v)).1
unfolding state_code on_state off_state lower_seat_state upper_seat_state
state_code-in_mode e (pos n) r v = ground arith
state_code-in_mode e (negsuc n) r v = refl

-- Outside the emulator the code of a valve in the manual mode is the one that to_manual gives from
-- the code of the same valve outside the manual mode: the two halves of the source agree.
pub valve_get_state-to_manual :
    (e : Settings) (v : Valve)
    → e.is_emulator ≡ false
    → (valve_get_state e (in_mode true v)).1 ≡ to_manual (valve_get_state e (in_mode false v)).1
unfolding valve_get_state get_valve_state
valve_get_state-to_manual e v h = ground (
  arith,
  read_fb-in_mode true e v,
  read_fb-in_mode false e v,
  get_valve_state_of-in_mode v.class true e v,
  get_valve_state_of-in_mode v.class false e v,
  state_code-in_mode e (get_valve_state_of v.class e v) (read_fb e v) v,
)
