-- ===== src/Valve/Codes.antt =====
-- The codes of valve::get_state (PAC/common/device/valve.cpp): what each tells of the valve.
use ptusa_main.Common.{
  ℕ, ◌≡◌, refl, ◌⊎◌, inl, inr, Bool, true, false, ◌&&◌, ◌||◌, not, Option, none, some, ◌==◌,
  if◌then◌else◌, arith, ltb,
}
use ptusa_main.State.Rounds.{both}
use ptusa_main.Plant.{get_delta_millisec}
use ptusa_main.Common.Int.{ℤ, pos, negsuc, is_negative}
use ptusa_main.Valve.{Settings, Valve, Class, is_equal, get_do, get_di, start_switch}
use ptusa_main.Valve.State.{
  valve_get_state, state_code, lower_seat_state, upper_seat_state, on_state, off_state, read_fb,
  has_fb, is_fb_off, is_late,
}
use ptusa_main.Valve.Virtual.{get_valve_state, get_fb_state, get_fb_state_of}
use ptusa_main.Valve.Base
use ptusa_main.Valve.Do1Di1Off
use ptusa_main.Valve.Do1Di1On

-- The state of the valve that a code of VALVE_STATE_EX tells, where it is one.
abbrev pub shown : ℤ → Option ℕ
shown (pos n) =
    if n == 1 || n == 11 || n == 21 || n == 31 || n == 40 || n == 42
    then some 1
    else if n == 0 || n == 10 || n == 20 || n == 30 || n == 41 || n == 43
    then some 0
    else if n == 2 || n == 22 || n == 32
    then some 2
    else if n == 3 || n == 23 || n == 33
    then some 3
    else if n == 5
    then some 5
    else none
shown (negsuc n) = if n == 1 || n == 11 then some 1 else if n == 2 || n == 12 then some 0 else none

-- The valve states that the source names.
abbrev pub named : ℤ → Option ℕ
named (pos n) = if n == 0 || n == 1 || n == 2 || n == 3 || n == 5 then some n else none
named _ = none

shown-on_state : (e : Settings) (ok : Bool) (v : Valve) → shown (on_state e ok v) ≡ some 1
unfolding on_state
shown-on_state e ok v = ground arith

shown-off_state : (e : Settings) (ok : Bool) (v : Valve) → shown (off_state e ok v) ≡ some 0
unfolding off_state
shown-off_state e ok v = ground arith

shown-lower : (v : Valve) → shown (lower_seat_state v) ≡ some 3
unfolding lower_seat_state
shown-lower v = ground arith

shown-upper : (v : Valve) → shown (upper_seat_state v) ≡ some 2
unfolding upper_seat_state
shown-upper v = ground arith

shown-state_code :
    (e : Settings) (st : ℤ) (r : Valve × Bool) (v : Valve)
    → shown (state_code e st r v).1 ≡ named st
unfolding state_code
shown-state_code e (pos n) (w, ok) v =
    ground (arith, shown-on_state e ok w, shown-off_state e ok w, shown-lower v, shown-upper v)
shown-state_code e (negsuc n) (w, ok) v = refl

-- Outside the emulator the code that valve::get_state gives can be read back: it tells whether the
-- valve is on, off, stopped or has its upper or lower seat open, whatever the feedback, the mode
-- and the parameters are, and it is the code of no state exactly where the valve has none of these.
pub shown-valve_get_state :
    (e : Settings) (v : Valve)
    → e.is_emulator ≡ false
    → shown (valve_get_state e v).1 ≡ named (get_valve_state e v)
unfolding valve_get_state
shown-valve_get_state e v h =
    ground (arith, shown-state_code e (get_valve_state e v) (read_fb e v) v)

-- The feedback is asked for, wrong, and the time is over.
abbrev pub is_failed : Settings → Valve → Bool
is_failed e v = has_fb v && not (is_fb_off v) && not (get_fb_state e v).1 && is_late e v

-- The feedback is right, or the valve is left as it was.
abbrev IsRead : Valve → Valve × Bool → Type 0
IsRead v r = (r.1 ≡ true) ⊎ (r ≡ (v, false))

pure-IsRead : (v : Valve) (b : Bool) → IsRead v (v, b)
pure-IsRead v true = inl refl
pure-IsRead v false = inr refl

if-IsRead :
    (a t : Bool) (v w : Valve) (b : Bool)
    → IsRead v (if a then (v, true) else if t then (w, true) else (v, b))
if-IsRead true t v w b = inl refl
if-IsRead false true v w b = inl refl
if-IsRead false false v w b = pure-IsRead v b

get_fb_state_of-IsRead : (c : Class) (e : Settings) (v : Valve) → IsRead v (get_fb_state_of c e v)
unfolding get_fb_state_of Do1Di1Off.get_fb_state Do1Di1On.get_fb_state Base.get_fb_state
get_fb_state_of-IsRead Class.v_do1_di1_off e v =
    if-IsRead e.is_emulator (not (get_do v 0 == get_di v 0)) v (start_switch e v)
      (ltb (get_delta_millisec e.now v.start_switch_time) v.p_on_time)
get_fb_state_of-IsRead Class.v_do1_di1_on e v =
    if-IsRead e.is_emulator (get_do v 0 == get_di v 0) v (start_switch e v)
      (ltb (get_delta_millisec e.now v.start_switch_time) v.p_on_time)
get_fb_state_of-IsRead Class.v_virtual e v = pure-IsRead v (get_fb_state_of Class.v_virtual e v).1
get_fb_state_of-IsRead Class.v_do1 e v = pure-IsRead v (get_fb_state_of Class.v_do1 e v).1
get_fb_state_of-IsRead Class.v_do2 e v = pure-IsRead v (get_fb_state_of Class.v_do2 e v).1
get_fb_state_of-IsRead Class.v_do1_di2 e v = pure-IsRead v (get_fb_state_of Class.v_do1_di2 e v).1
get_fb_state_of-IsRead Class.v_do2_di2 e v = pure-IsRead v (get_fb_state_of Class.v_do2_di2 e v).1
get_fb_state_of-IsRead Class.v_bistable e v = pure-IsRead v (get_fb_state_of Class.v_bistable e v).1
get_fb_state_of-IsRead Class.v_mix_proof e v =
    pure-IsRead v (get_fb_state_of Class.v_mix_proof e v).1
get_fb_state_of-IsRead Class.v_bottom_mix_proof e v =
    pure-IsRead v (get_fb_state_of Class.v_bottom_mix_proof e v).1
get_fb_state_of-IsRead Class.v_mini_flushing e v =
    pure-IsRead v (get_fb_state_of Class.v_mini_flushing e v).1

get_fb_state-IsRead : (e : Settings) (v : Valve) → IsRead v (get_fb_state e v)
unfolding get_fb_state
get_fb_state-IsRead e v = get_fb_state_of-IsRead v.class e v

read_fb-IsRead : (e : Settings) (v : Valve) → IsRead v (read_fb e v)
unfolding read_fb
read_fb-IsRead e v =
    both (λ r. IsRead v r) (has_fb v && not (is_fb_off v)) (get_fb_state-IsRead e v) (inl refl)

read_fb_lem :
    (e : Settings) (v : Valve)
    → (read_fb e v).1 ≡ not (has_fb v && not (is_fb_off v) && not (get_fb_state e v).1)
unfolding read_fb
read_fb_lem e v = ground arith

no_negative :
    (e : Settings) (v : Valve)
    → (is_negative (on_state e true v) ≡ false) × (is_negative (off_state e true v) ≡ false)
unfolding on_state off_state
no_negative e v = ground arith

negative_late :
    (e : Settings) (v : Valve)
    → (is_negative (on_state e false v) ≡ (has_fb v && not (is_fb_off v) && is_late e v))
      × (is_negative (off_state e false v) ≡ (has_fb v && not (is_fb_off v) && is_late e v))
unfolding on_state off_state
negative_late e v = ground arith

seat_negative :
    (v : Valve)
    → (is_negative (lower_seat_state v) ≡ false) × (is_negative (upper_seat_state v) ≡ false)
unfolding lower_seat_state upper_seat_state
seat_negative v = ground arith

negative-state_code :
    (e : Settings) (st : ℤ) (r : Valve × Bool) (v : Valve)
    → IsRead v r
    → is_negative (state_code e st r v).1 ≡ (
        (is_equal st 1 || is_equal st 0) && not r.1 && has_fb v && not (is_fb_off v) && is_late e v)
unfolding state_code
negative-state_code e (pos n) r v (inl ok) = ground (arith, no_negative e r.0, seat_negative v)
negative-state_code e (pos n) r v (inr eq) =
    rw eq (ground (arith, negative_late e v, seat_negative v))
negative-state_code e (negsuc n) r v h = refl

-- Outside the emulator valve::get_state gives a negative code, an error, if and only if the valve
-- is on or off, has feedback that is turned on and is wrong, and the time to switch is over.
pub is_negative-valve_get_state :
    (e : Settings) (v : Valve)
    → e.is_emulator ≡ false
    → is_negative (valve_get_state e v).1
      ≡ ((is_equal (get_valve_state e v) 1 || is_equal (get_valve_state e v) 0) && is_failed e v)
unfolding valve_get_state
is_negative-valve_get_state e v h = ground (
  arith,
  negative-state_code e (get_valve_state e v) (read_fb e v) v (read_fb-IsRead e v),
  read_fb_lem e v,
)
