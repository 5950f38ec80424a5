-- ===== src/Valve/Events.antt =====
-- The calls that change the valves, in any order (PAC/common/device/valve.cpp), and what every call
-- keeps.
use ptusa_main.Common.{
  ℕ, ◌≡◌, refl, inl, inr, Bool, true, false, ◌||◌, not, List, [], ◌∷◌, ◌++◌, ◌==◌, arith, contains,
  Bool-cases,
}
use ptusa_main.Common.Int.{ℤ}
use ptusa_main.Device.{set_s, set_v, set_m}
use ptusa_main.Valve.{Settings, Valve}
use ptusa_main.Valve.Base
use ptusa_main.Valve.KeptState.{direct_set_state-Keeps}
use ptusa_main.Valve.Kept.{Keeps, Keeps-refl, if-Keeps, direct_on-Keeps, direct_off-Keeps}
use ptusa_main.Valve.Queue.{
  Valves, on, off, set_state, command, evaluate, evaluate_queue, evaluate_bistable, on_valve,
  device_on, device_off, switch_all,
}
use ptusa_main.Valve.Rounds.{
  bistable_round, switch_round, remove_round, finished_plain, class-remove_finished,
  class-switch_off,
}
use ptusa_main.Valve.Switched.{is_bottom}
use ptusa_main.Valve.Virtual.{Cmd, set_cmd}

-- A call with the time at which it is made.
pub data Event : Type 0 where
  call_on : Settings → ℕ → Event
  call_off : Settings → ℕ → Event
  call_set_state : Settings → ℤ → ℕ → Event
  call_set_cmd : Settings → Cmd → ℕ → Event
  call_evaluate : Settings → Event

unfoldable pub step : Event → Valves → Valves
step (call_on e d) s = on e d s
step (call_off e d) s = off e d s
step (call_set_state e n d) s = set_state e n d s
step (call_set_cmd e c d) s = command e c d s
step (call_evaluate e) s = evaluate e s

unfoldable pub run : List Event → Valves → Valves
run [] s = s
run (x ∷ xs) s = run xs (step x s)

-- A valve that closes with a delay is in the queue, one with a mini valve apart.
abbrev pub is_tracked : Valves → ℕ → Bool
is_tracked s d =
    not (s.valve d).is_switching_off || contains s.to_switch_off d || is_bottom (s.valve d).class

abbrev pub IsTracked : Valves → Type 0
IsTracked s = (d : ℕ) → is_tracked s d ≡ true

pub contains_append :
    (xs : List ℕ) (d k : ℕ) → contains (xs ++ d ∷ []) k ≡ (contains xs k || d == k)
unfolding contains
contains_append [] d k = ground arith
contains_append (x ∷ xs) d k = ground (arith, contains_append xs d k)

pub on_switching :
    (e : Settings) (v : Valve)
    → ((on_valve e v).is_switching_off ≡ false) × ((on_valve e v).class ≡ v.class)
unfolding on_valve device_on
on_switching e v =
    let w = record v { was_on_auto = true; is_switching_off = false } in
    ground (arith, (direct_on-Keeps e w).switching, (direct_on-Keeps e w).class)

pub device_off-Keeps : (e : Settings) (v : Valve) → Keeps v (device_off e v)
unfolding device_off
device_off-Keeps e v = if-Keeps v.dev.is_manual_mode (Keeps-refl v) (direct_off-Keeps e v)

on-IsTracked : (e : Settings) (d : ℕ) (s : Valves) → IsTracked s → IsTracked (on e d s)
unfolding on
on-IsTracked e d s h k = ground (arith, h k, on_switching e (s.valve k))

off-IsTracked : (e : Settings) (d : ℕ) (s : Valves) → IsTracked s → IsTracked (off e d s)
unfolding off
off-IsTracked e d s h k = ground (
  arith,
  h k,
  contains_append s.to_switch_off d k,
  (device_off-Keeps e (s.valve k)).switching,
  (device_off-Keeps e (s.valve k)).class,
)

evaluate_queue-IsTracked :
    (e : Settings) (s : Valves) → IsTracked s → IsTracked (evaluate_queue e s)
unfolding evaluate_queue
evaluate_queue-IsTracked e s h k =
    let ds = s.to_switch_off in
    let f = switch_all e ds s.valve in
    let class = class-remove_finished e ds f k in
    elim (Bool-cases (is_bottom (f k).class)) [
      | inl bottom ↦ ground (arith, class, bottom)
      | inr plain ↦
          let r = remove_round e ds f k _ (finished_plain e (f k) plain) in
          ground (
            arith,
            h k,
            r.0,
            r.1,
            switch_round e ds s.valve k,
            class-switch_off e (s.valve k),
            plain,
          )
    ]

evaluate-IsTracked : (e : Settings) (s : Valves) → IsTracked s → IsTracked (evaluate e s)
unfolding evaluate
evaluate-IsTracked e s h =
    evaluate_queue-IsTracked e (record s { valve = evaluate_bistable e s.v_bistable s.valve })
      (λ k.
        let b = bistable_round e s.v_bistable s.valve k in
        ground (arith, h k, b.switching, b.class))

set_state-IsTracked :
    (e : Settings) (n : ℤ) (d : ℕ) (s : Valves) → IsTracked s → IsTracked (set_state e n d s)
unfolding set_state
set_state-IsTracked e n d s h k =
    let b = direct_set_state-Keeps e n (s.valve k) in ground (arith, h k, b.switching, b.class)

pub set_cmd_same :
    (e : Settings) (c : Cmd) (v : Valve)
    → ((set_cmd e c v).is_switching_off ≡ v.is_switching_off) × ((set_cmd e c v).class ≡ v.class)
unfolding set_cmd Base.set_on_fb Base.set_off_fb
set_cmd_same e (Cmd.set_dev (set_s n)) v =
    let b = direct_set_state-Keeps e n v in (b.switching, b.class)
set_cmd_same e (Cmd.set_dev (set_v x)) v = (refl, refl)
set_cmd_same e (Cmd.set_dev (set_m n)) v = (refl, refl)
set_cmd_same e _ v = ground arith

command-IsTracked :
    (e : Settings) (c : Cmd) (d : ℕ) (s : Valves) → IsTracked s → IsTracked (command e c d s)
unfolding command
command-IsTracked e c d s h k = ground (arith, h k, set_cmd_same e c (s.valve k))

step-IsTracked : (x : Event) (s : Valves) → IsTracked s → IsTracked (step x s)
unfolding step
step-IsTracked (call_on e d) s h = on-IsTracked e d s h
step-IsTracked (call_off e d) s h = off-IsTracked e d s h
step-IsTracked (call_set_state e n d) s h = set_state-IsTracked e n d s h
step-IsTracked (call_set_cmd e c d) s h = command-IsTracked e c d s h
step-IsTracked (call_evaluate e) s h = evaluate-IsTracked e s h

-- After any sequence of on, off, set_state, commands of the server and rounds, at any times, every
-- valve that is held to be closing stands in the queue of the valves to switch off, valves with a
-- mini valve apart, where this held before.
pub run-IsTracked : (xs : List Event) (s : Valves) → IsTracked s → IsTracked (run xs s)
unfolding run
run-IsTracked [] s h = h
run-IsTracked (x ∷ xs) s h = run-IsTracked xs (step x s) (step-IsTracked x s h)
