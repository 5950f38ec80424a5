-- ===== src/Valve/Dropped.antt =====
-- valve::off and valve::evaluate on a valve_bottom_mix_proof (PAC/common/device/valve.cpp), which
-- answers is_switching_off_finished by its mini valve.
use ptusa_main.Common.{
  ℕ, ◌≡◌, refl, sym, ap, ◌∙◌, inl, inr, Bool, true, false, ◌||◌, not, List, [], ◌∷◌, ◌==◌, ltb,
  if◌then◌else◌, arith, contains, all, Bool-cases, ==_iff,
}
use mathlib.Core.Path.{subst}
use mathlib.Core.Bool.{false≢true}
use ptusa_main.Plant.{get_delta_millisec}
use ptusa_main.Valve.{Settings, Valve, Class, get_do, is_equal}
use ptusa_main.Valve.BottomMixProof
use ptusa_main.Valve.Delay.{later, all_of, all_of-rounded, rounded, bistable-off, off_self}
use ptusa_main.Valve.Events.{Event, call_off, call_evaluate, step, run, contains_append}
use ptusa_main.Valve.Queue.{
  Valves, off, evaluate, evaluate_queue, is_immediate, switch_off, start_off,
}
use ptusa_main.Valve.Rounds.{remove_round}
use ptusa_main.Valve.Virtual.{
  get_valve_state, get_valve_state_of, is_switching_off_finished, is_switching_off_finished_of,
}

-- The valve is open, was opened by the program, and its mini valve is not being closed.
pub record IsOpen (v : Valve) : Type 0 where
  pub class : v.class ≡ Class.v_bottom_mix_proof
  pub auto : v.was_on_auto ≡ true
  pub output : get_do v 0 ≡ 1
  pub mini : v.is_closing_mini ≡ false

-- `off` of any valve, or a round, outside the emulator.
abbrev pub is_closing_call : Event → Bool
is_closing_call (call_off e d) = not e.is_emulator
is_closing_call (call_evaluate e) = not e.is_emulator
is_closing_call _ = false

-- The valve is held to be closing, but is not in the queue.
record IsDropped (v : Valve) (d : ℕ) (s : Valves) : Type 0 where
  valve : s.valve d ≡ v
  queue : contains s.to_switch_off d ≡ false
  bistable : contains s.v_bistable d ≡ false

open_delayed :
    (e : Settings) (v : Valve) → IsOpen v → e.is_emulator ≡ false → is_immediate e v ≡ false
unfolding is_immediate get_valve_state get_valve_state_of BottomMixProof.get_valve_state
open_delayed e v k h =
    ap (λ z. not v.was_on_auto || is_equal z 2 || is_equal z 3)
      (ap (λ c. get_valve_state_of c e v) k.class)
    ∙ ground (arith, k.auto, k.output, h)

finished_open : (e : Settings) (v : Valve) → IsOpen v → is_switching_off_finished e v ≡ (v, true)
unfolding is_switching_off_finished is_switching_off_finished_of
    BottomMixProof.is_switching_off_finished
finished_open e v k = ap (λ c. is_switching_off_finished_of c e v) k.class ∙ ground (arith, k.mini)

off_nothing :
    (e : Settings) (k : ℕ) (s : Valves)
    → is_immediate e (s.valve k) ≡ false
    → (s.valve k).is_switching_off ≡ true
    → off e k s ≡ s
unfolding off
off_nothing e k s n w = ground (arith, n, w)

off_other :
    (e : Settings) (k d : ℕ) (s : Valves)
    → (d == k) ≡ false
    → ((off e k s).valve d ≡ s.valve d)
      × (contains (off e k s).to_switch_off d ≡ contains s.to_switch_off d)
unfolding off
off_other e k d s n = ground (arith, n, contains_append s.to_switch_off k d)

off-IsDropped :
    (e : Settings) (v : Valve) (d k : ℕ) (s : Valves)
    → IsOpen v
    → v.is_switching_off ≡ true
    → e.is_emulator ≡ false
    → IsDropped v d s
    → IsDropped v d (off e k s)
off-IsDropped e v d k s o w h p = elim (Bool-cases (d == k)) [
  | inl eq ↦
      let same : s.valve k ≡ v = ap s.valve (sym ((==_iff d k).0 eq)) ∙ p.valve in
      subst (IsDropped v d)
        (sym (
          off_nothing e k s (ap (is_immediate e) same ∙ open_delayed e v o h)
            (ap (λ x. x.is_switching_off) same ∙ w)))
        p
  | inr ne ↦
      let r = off_other e k d s ne in
      record {
        valve = r.0 ∙ p.valve;
        queue = r.1 ∙ p.queue;
        bistable = ap (λ ds. contains ds d) (bistable-off e k s) ∙ p.bistable;
      }
]

bistable-evaluate : (e : Settings) (s : Valves) → (evaluate e s).v_bistable ≡ s.v_bistable
unfolding evaluate evaluate_queue
bistable-evaluate e s = refl

-- A round that leaves the valve open drops it.
round-IsDropped :
    (e : Settings) (v : Valve) (d : ℕ) (s : Valves)
    → IsOpen v
    → contains s.v_bistable d ≡ false
    → rounded e s d ≡ v
    → IsDropped v d (evaluate e s)
unfolding evaluate evaluate_queue
round-IsDropped e v d s o u r =
    let same = all_of-rounded e s d u ∙ r in
    let finished =
      subst (λ w. is_switching_off_finished e w ≡ (w, true)) (sym same) (finished_open e v o) in
    let out = remove_round e s.to_switch_off (all_of e s) d true finished in
    record { valve = out.0 ∙ same; queue = ground (arith, out.1); bistable = u }

evaluate-IsDropped :
    (e : Settings) (v : Valve) (d : ℕ) (s : Valves)
    → IsOpen v
    → IsDropped v d s
    → IsDropped v d (evaluate e s)
evaluate-IsDropped e v d s o p =
    round-IsDropped e v d s o p.bistable
      (ap (λ b. if b then switch_off e (s.valve d) else s.valve d) p.queue ∙ p.valve)

run-IsDropped :
    (v : Valve) (d : ℕ) (xs : List Event) (s : Valves)
    → IsOpen v
    → v.is_switching_off ≡ true
    → all is_closing_call xs ≡ true
    → IsDropped v d s
    → IsDropped v d (run xs s)
unfolding run step all
run-IsDropped v d [] s o w h p = p
run-IsDropped v d (call_off e k ∷ xs) s o w h p =
    run-IsDropped v d xs (off e k s) o w (ground arith)
      (off-IsDropped e v d k s o w (ground arith) p)
run-IsDropped v d (call_evaluate e ∷ xs) s o w h p =
    run-IsDropped v d xs (evaluate e s) o w (ground arith) (evaluate-IsDropped e v d s o p)
run-IsDropped v d (_ ∷ xs) s o w h p = elim (false≢true (ground arith)) [ ]

early_same :
    (e : Settings) (v : Valve)
    → ltb e.v_off_delay_time (get_delta_millisec e.now v.start_off_time) ≡ false
    → switch_off e v ≡ v
unfolding switch_off
early_same e v h = ground (arith, h)

-- Where a bottom mixproof valve is open, was opened by the program, and its mini valve is not being
-- closed, off and then a round before the delay has passed leave it open for good: no later
-- sequence of off and rounds outside the emulator, at any times, changes the valve.
pub run-evaluate-off :
    (e : Settings) (t d : ℕ) (xs : List Event) (s : Valves)
    → IsOpen (s.valve d)
    → (s.valve d).is_switching_off ≡ false
    → e.is_emulator ≡ false
    → contains s.v_bistable d ≡ false
    → ltb e.v_off_delay_time (get_delta_millisec t e.now) ≡ false
    → all is_closing_call xs ≡ true
    → (run xs (evaluate (later t e) (off e d s))).valve d ≡ start_off e (s.valve d)
run-evaluate-off e t d xs s o w h u l c =
    let v = start_off e (s.valve d) in
    let closing : (off e d s).valve d ≡ v =
      off_self e d s ∙ ground (arith, open_delayed e (s.valve d) o h, w) in
    let open_v : IsOpen v = record {
      class = o.class;
      auto = o.auto;
      output = o.output;
      mini = o.mini;
    } in
    let same : rounded (later t e) (off e d s) d ≡ v =
      ap (λ x. if contains (off e d s).to_switch_off d then switch_off (later t e) x else x) closing
      ∙ ground (arith, early_same (later t e) v l) in
    (run-IsDropped v d xs (evaluate (later t e) (off e d s)) open_v refl c (
      round-IsDropped (later t e) v d (off e d s) open_v
        (ap (λ ds. contains ds d) (bistable-off e d s) ∙ u) same)).valve
