-- ===== src/Valve/Apart.antt =====
-- Every call on the valves keeps those outputs of a valve apart that must not be on together
-- (PAC/common/device/valve.cpp).
use ptusa_main.Common.{
  ℕ, ◌≡◌, refl, sym, ap, ◌∙◌, inl, inr, Bool, true, false, ◌||◌, ◌==◌, List, [], ◌∷◌, arith,
  for_each, Bool-cases,
}
use ptusa_main.Common.Int.{ℤ}
use ptusa_main.Device.{set_s, set_v, set_m}
use ptusa_main.Valve.{Settings, Valve, Class, get_do}
use ptusa_main.Valve.Base
use ptusa_main.Valve.Bistable
use ptusa_main.Valve.Do2
use ptusa_main.Valve.Do2Di2
use ptusa_main.Valve.MiniFlushing
use ptusa_main.Valve.Events.{
  Event, step, run, call_on, call_off, call_set_state, call_set_cmd, call_evaluate,
}
use ptusa_main.Valve.KeptState.{direct_set_state-Keeps}
use ptusa_main.Valve.Kept.{direct_on-Keeps, direct_off-Keeps}
use ptusa_main.Valve.Queue.{
  Valves, on, off, set_state, command, evaluate, evaluate_queue, evaluate_bistable, on_valve,
  device_on, device_off, switch_off, switch_all, remove_finished, change,
}
use ptusa_main.Valve.Rounds.{remove_round, finished_plain, class-remove_finished}
use ptusa_main.Valve.Seats.{
  is_exclusive, on_exclusive, off_exclusive, direct_set_state-is_exclusive,
}
use ptusa_main.Valve.Switched.{is_bottom}
use ptusa_main.Valve.Virtual.{
  Cmd, set_cmd, direct_on, direct_on_of, direct_off, direct_off_of, direct_set_state,
  direct_set_state_of, switch_state,
}

-- One of the first two outputs is off.
abbrev pub is_single : Valve → Bool
is_single v = get_do v 0 == 0 || get_do v 1 == 0

-- The outputs that must not be on together: the valve and its seats, the two directions, or the valve
-- and its mini valve.
abbrev pub is_apart_of : Class → Valve → Bool
is_apart_of Class.v_mix_proof v = is_exclusive v
is_apart_of Class.v_bistable v = is_single v
is_apart_of Class.v_do2 v = is_single v
is_apart_of Class.v_do2_di2 v = is_single v
is_apart_of Class.v_mini_flushing v = is_single v
is_apart_of _ v = true

abbrev pub is_apart : Valve → Bool
is_apart v = is_apart_of v.class v

-- A valve with the same outputs.
same_outs :
    (c : Class) (v w : Valve) (same : (i : ℕ) → get_do w i ≡ get_do v i)
    → is_apart_of c v ≡ true
    → is_apart_of c w ≡ true
same_outs _ v w same h = ground (arith, same 0, same 1, same 2, h)

on_of :
    (c : Class) (e : Settings) (v : Valve)
    → is_apart_of c v ≡ true
    → is_apart_of c (direct_on_of c e v) ≡ true
unfolding direct_on_of Base.direct_on Do2.direct_on Do2Di2.direct_on Bistable.direct_on
    MiniFlushing.direct_on
on_of Class.v_mix_proof e v h = on_exclusive e v h
on_of _ e v h = ground arith

off_of :
    (c : Class) (e : Settings) (v : Valve)
    → is_apart_of c v ≡ true
    → is_apart_of c (direct_off_of c e v) ≡ true
unfolding direct_off_of Base.direct_off Do2.direct_off Do2Di2.direct_off Bistable.direct_off
    MiniFlushing.direct_off
off_of Class.v_mix_proof e v h = off_exclusive e v h
off_of _ e v h = ground arith

emulated :
    (c : Class) (n : ℤ) (v : Valve)
    → is_apart_of c v ≡ true
    → is_apart_of c (Base.emulate_state n v) ≡ true
unfolding Base.emulate_state
emulated _ n v h = ground arith

stop_single : (v : Valve) → is_single v ≡ true → is_single (Bistable.stop v) ≡ true
unfolding Bistable.stop
stop_single v h = ground arith

mini_single :
    (e : Settings) (v : Valve)
    → e.is_emulator ≡ false
    → is_single (MiniFlushing.open_mini e v) ≡ true
unfolding MiniFlushing.open_mini MiniFlushing.direct_off
mini_single e v h = ground arith

-- digital_io_device::direct_set_state on a valve of the class `c`.
switched :
    (e : Settings) (n : ℤ) (v : Valve)
    → is_apart v ≡ true
    → is_apart_of v.class (switch_state e n v) ≡ true
unfolding switch_state direct_on direct_off
switched e n v h = ground (arith, emulated v.class n v h, on_of v.class e v h, off_of v.class e v h)

state_of :
    (c : Class) (e : Settings) (n : ℤ) (v : Valve)
    → v.class ≡ c
    → is_apart_of c v ≡ true
    → is_apart_of c (direct_set_state_of c e n v) ≡ true
unfolding direct_set_state_of direct_on_of direct_off_of Bistable.direct_set_state
    MiniFlushing.direct_set_state
state_of Class.v_mix_proof e n v p h = direct_set_state-is_exclusive e n v h
state_of Class.v_bistable e n v p h =
    let w = record v { is_stoped = false } in
    ground (
      arith,
      emulated Class.v_bistable n v h,
      stop_single v h,
      on_of Class.v_bistable e w h,
      off_of Class.v_bistable e w h,
    )
state_of Class.v_mini_flushing e n v p h = elim (Bool-cases e.is_emulator) [
  | inl emu ↦ ground (arith, emulated Class.v_mini_flushing n v h)
  | inr real ↦ ground (
    arith,
    mini_single e v real,
    on_of Class.v_mini_flushing e v h,
    off_of Class.v_mini_flushing e v h,
  )
]
state_of Class.v_do2 e n v p h =
    ap (λ c. is_apart_of c (switch_state e n v)) (sym p)
    ∙ switched e n v (ap (λ c. is_apart_of c v) p ∙ h)
state_of Class.v_do2_di2 e n v p h =
    ap (λ c. is_apart_of c (switch_state e n v)) (sym p)
    ∙ switched e n v (ap (λ c. is_apart_of c v) p ∙ h)
state_of _ e n v p h = ground arith

direct_on_apart : (e : Settings) (v : Valve) → is_apart v ≡ true → is_apart (direct_on e v) ≡ true
unfolding direct_on
direct_on_apart e v h =
    ap (λ c. is_apart_of c (direct_on e v)) (direct_on-Keeps e v).class ∙ on_of v.class e v h

direct_off_apart : (e : Settings) (v : Valve) → is_apart v ≡ true → is_apart (direct_off e v) ≡ true
unfolding direct_off
direct_off_apart e v h =
    ap (λ c. is_apart_of c (direct_off e v)) (direct_off-Keeps e v).class ∙ off_of v.class e v h

direct_set_state_apart :
    (e : Settings) (n : ℤ) (v : Valve)
    → is_apart v ≡ true
    → is_apart (direct_set_state e n v) ≡ true
unfolding direct_set_state
direct_set_state_apart e n v h =
    ap (λ c. is_apart_of c (direct_set_state e n v)) (direct_set_state-Keeps e n v).class
    ∙ state_of v.class e n v refl h

on_apart : (e : Settings) (v : Valve) → is_apart v ≡ true → is_apart (on_valve e v) ≡ true
unfolding on_valve device_on
on_apart e v h =
    let w = record v { was_on_auto = true; is_switching_off = false } in
    ground (
      arith,
      direct_on_apart e w (same_outs v.class v w (λ i. refl) h),
      same_outs v.class v w (λ i. refl) h,
    )

off_apart : (e : Settings) (v : Valve) → is_apart v ≡ true → is_apart (device_off e v) ≡ true
unfolding device_off
off_apart e v h = ground (arith, direct_off_apart e v h, h)

switch_off_apart : (e : Settings) (v : Valve) → is_apart v ≡ true → is_apart (switch_off e v) ≡ true
unfolding switch_off
switch_off_apart e v h = ground (arith, direct_off_apart e v h, h)

bistable_apart :
    (e : Settings) (v : Valve) → is_apart v ≡ true → is_apart (Bistable.evaluate e v) ≡ true
unfolding Bistable.evaluate Bistable.finish
bistable_apart e v h = ground (arith, h)

set_cmd_apart :
    (e : Settings) (c : Cmd) (v : Valve) → is_apart v ≡ true → is_apart (set_cmd e c v) ≡ true
unfolding set_cmd Base.set_on_fb Base.set_off_fb
set_cmd_apart e (Cmd.set_dev (set_s n)) v h = direct_set_state_apart e n v h
set_cmd_apart e (Cmd.set_dev (set_v x)) v h = same_outs v.class v _ (λ i. refl) h
set_cmd_apart e (Cmd.set_dev (set_m n)) v h = same_outs v.class v _ (λ i. refl) h
set_cmd_apart e _ v h = ground (arith, h)

abbrev pub IsApart : Valves → Type 0
IsApart s = (d : ℕ) → is_apart (s.valve d) ≡ true

for_each_apart :
    (g : Valve → Valve) (keeps : (v : Valve) → is_apart v ≡ true → is_apart (g v) ≡ true)
    (ds : List ℕ) (f : ℕ → Valve) (h : (k : ℕ) → is_apart (f k) ≡ true) (k : ℕ)
    → is_apart (for_each (change g) ds f k) ≡ true
unfolding for_each
for_each_apart g keeps [] f h k = h k
for_each_apart g keeps (d ∷ ds) f h k =
    for_each_apart g keeps ds (change g d f) (λ i. ground (arith, h i, keeps (f i) (h i))) k

bottom_apart : (c : Class) (v : Valve) → is_bottom c ≡ true → is_apart_of c v ≡ true
bottom_apart Class.v_bottom_mix_proof v h = refl
bottom_apart _ v h = ground arith

evaluate_queue-IsApart : (e : Settings) (s : Valves) → IsApart s → IsApart (evaluate_queue e s)
unfolding evaluate_queue switch_all
evaluate_queue-IsApart e s h k =
    let f = switch_all e s.to_switch_off s.valve in
    let p = for_each_apart (switch_off e) (switch_off_apart e) s.to_switch_off s.valve h k in
    elim (Bool-cases (is_bottom (f k).class)) [
      | inl bottom ↦
          bottom_apart ((remove_finished e s.to_switch_off f).0 k).class _
            (ap is_bottom (class-remove_finished e s.to_switch_off f k) ∙ bottom)
      | inr plain ↦
          ap is_apart (remove_round e s.to_switch_off f k _ (finished_plain e (f k) plain)).0 ∙ p
    ]

step-IsApart : (x : Event) (s : Valves) → IsApart s → IsApart (step x s)
unfolding step on off set_state command evaluate evaluate_bistable
step-IsApart (call_on e d) s h k = ground (arith, h k, on_apart e (s.valve k) (h k))
step-IsApart (call_off e d) s h k = ground (arith, h k, off_apart e (s.valve k) (h k))
step-IsApart (call_set_state e n d) s h k =
    ground (arith, h k, direct_set_state_apart e n (s.valve k) (h k))
step-IsApart (call_set_cmd e c d) s h k = ground (arith, h k, set_cmd_apart e c (s.valve k) (h k))
step-IsApart (call_evaluate e) s h k =
    evaluate_queue-IsApart e (record s { valve = evaluate_bistable e s.v_bistable s.valve })
      (for_each_apart (Bistable.evaluate e) (bistable_apart e) s.v_bistable s.valve h) k

-- No sequence of on, off, set_state, commands of the server and rounds turns on two outputs of a
-- valve that exclude each other, where none were on together before: the valve and its seats, or
-- both seats, of a mixproof valve, the valve and the mini valve of a mini flushing valve, and both
-- outputs of a bistable valve and of the other classes with two outputs.
pub run-IsApart : (xs : List Event) (s : Valves) → IsApart s → IsApart (run xs s)
unfolding run
run-IsApart [] s h = h
run-IsApart (x ∷ xs) s h = run-IsApart xs (step x s) (step-IsApart x s h)
