-- ===== src/Valve/Delay.antt =====
-- valve::off and then valve::evaluate (PAC/common/device/valve.cpp): the valve closes once the delay
-- is over, and not before.
use ptusa_main.Common.{
  ℕ, ◌≡◌, refl, ap, ◌∙◌, Bool, true, false, ◌&&◌, List, [], ◌∷◌, ltb, if◌then◌else◌, arith,
  contains, for_each,
}
use ptusa_main.Plant.{get_delta_millisec}
use ptusa_main.Valve.{Settings, Valve}
use ptusa_main.Valve.Base
use ptusa_main.Valve.Do1
use ptusa_main.Valve.Do2
use ptusa_main.Valve.Do1Di1Off
use ptusa_main.Valve.Do1Di1On
use ptusa_main.Valve.Do1Di2
use ptusa_main.Valve.Do2Di2
use ptusa_main.Valve.Bistable
use ptusa_main.Valve.MixProof
use ptusa_main.Valve.BottomMixProof
use ptusa_main.Valve.MiniFlushing
use ptusa_main.Valve.Queue.{
  Valves, off, evaluate, evaluate_queue, evaluate_bistable, device_off, is_immediate, switch_off,
  start_off, switch_all, change,
}
use ptusa_main.Valve.Rounds.{switch_round, remove_round, finished_plain, class-switch_off}
use ptusa_main.Valve.Events.{device_off-Keeps}
use ptusa_main.Valve.Switched.{is_bottom}
use ptusa_main.Valve.Virtual.{direct_off}

-- The same controller at another time.
abbrev pub later : ℕ → Settings → Settings
later now e = record e { now = now }

-- A valve that is not bistable is passed over.
pub unlisted :
    (g : Valve → Valve) (ds : List ℕ) (f : ℕ → Valve) (k : ℕ)
    → contains ds k ≡ false
    → for_each (change g) ds f k ≡ f k
unfolding for_each contains
unlisted g [] f k h = refl
unlisted g (d ∷ ds) f k h = ground (arith, h, unlisted g ds (change g d f) k)

-- One round on a valve that is neither bistable nor with a mini valve.
abbrev pub rounded : Settings → Valves → ℕ → Valve
rounded e s d = if contains s.to_switch_off d then switch_off e (s.valve d) else s.valve d

abbrev pub all_of : Settings → Valves → ℕ → Valve
all_of e s = switch_all e s.to_switch_off (evaluate_bistable e s.v_bistable s.valve)

pub all_of-rounded :
    (e : Settings) (s : Valves) (d : ℕ)
    → contains s.v_bistable d ≡ false
    → all_of e s d ≡ rounded e s d
unfolding evaluate_bistable
all_of-rounded e s d u =
    switch_round e s.to_switch_off (evaluate_bistable e s.v_bistable s.valve) d
    ∙ ap (λ v. if contains s.to_switch_off d then switch_off e v else v)
        (unlisted (Bistable.evaluate e) s.v_bistable s.valve d u)

pub valve-evaluate :
    (e : Settings) (s : Valves) (d : ℕ)
    → contains s.v_bistable d ≡ false
    → is_bottom (s.valve d).class ≡ false
    → ((evaluate e s).valve d ≡ rounded e s d)
      × (contains (evaluate e s).to_switch_off d
          ≡ (contains s.to_switch_off d && (rounded e s d).is_switching_off))
unfolding evaluate evaluate_queue
valve-evaluate e s d u b =
    let same = all_of-rounded e s d u in
    let plain : is_bottom (all_of e s d).class ≡ false =
      ap (λ v. is_bottom v.class) same ∙ ground (arith, b, class-switch_off e (s.valve d)) in
    let r =
      remove_round e s.to_switch_off (all_of e s) d _ (finished_plain e (all_of e s d) plain) in
    (r.0 ∙ same, ground (arith, r.1, ap (λ v. v.is_switching_off) same))

late_closes :
    (e : Settings) (v : Valve)
    → v.dev.is_manual_mode ≡ false
    → v.is_switching_off ≡ true
    → ltb e.v_off_delay_time (get_delta_millisec e.now v.start_off_time) ≡ true
    → switch_off e v ≡ record (direct_off e v) { is_switching_off = false; was_on_auto = false }
unfolding switch_off
late_closes e v m s h = ground arith

-- The fields of the delayed closing.
abbrev flagged : Bool → ℕ → Bool → Valve → Valve
flagged b t a v = record v { is_switching_off = b; start_off_time = t; was_on_auto = a }

-- What `valve::off` leaves of the valve itself.
pub off_self :
    (e : Settings) (d : ℕ) (s : Valves)
    → (off e d s).valve d ≡ (
        if is_immediate e (s.valve d)
        then device_off e (s.valve d)
        else if (s.valve d).is_switching_off
        then s.valve d
        else start_off e (s.valve d))
unfolding off
off_self e d s = ground arith

pub class-off :
    (e : Settings) (d : ℕ) (s : Valves) → ((off e d s).valve d).class ≡ (s.valve d).class
class-off e d s = ground (arith, off_self e d s, (device_off-Keeps e (s.valve d)).class)

pub bistable-off : (e : Settings) (d : ℕ) (s : Valves) → (off e d s).v_bistable ≡ s.v_bistable
unfolding off
bistable-off e d s = ground arith

-- When the valve began to close, after `off` at the time of `e`.
abbrev pub closing_since : Settings → Valve → ℕ
closing_since e v = if v.is_switching_off then v.start_off_time else e.now

abbrev pub is_over : Settings → ℕ → Valve → Bool
is_over e t v = ltb e.v_off_delay_time (get_delta_millisec t (closing_since e v))

-- What `off` at the time of `e` makes of a valve that it closes with the delay.
abbrev closing : Settings → Valve → Valve
closing e v = flagged true (closing_since e v) v.was_on_auto v
