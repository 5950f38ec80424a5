-- ===== src/Valve/Rounds.antt =====
-- What the loops of valve::evaluate do to one valve (PAC/common/device/valve.cpp).
use ptusa_main.Common.{
  ℕ, ◌≡◌, refl, sym, ap, ◌∙◌, inl, inr, Bool, true, false, ◌&&◌, not, List, [], ◌∷◌, ◌==◌,
  if◌then◌else◌, arith, contains, for_each, Bool-cases, ==_iff,
}
use mathlib.Core.Path.{subst}
use ptusa_main.Valve.{Settings, Valve, Class}
use ptusa_main.Valve.Base
use ptusa_main.Valve.BottomMixProof
use ptusa_main.Valve.Kept.{
  Keeps, Keeps-refl, Keeps-trans, bistable-Keeps, direct_off-Keeps, direct_off_of-Keeps,
}
use ptusa_main.Valve.Queue.{
  change, update, switch_off, switch_all, remove_finished, evaluate_bistable,
}
use ptusa_main.Valve.Switched.{is_bottom}
use ptusa_main.Valve.Virtual.{
  direct_off_of, is_switching_off_finished, is_switching_off_finished_of,
}

for_each-change :
    (g : Valve → Valve) (idem : (v : Valve) → g (g v) ≡ g v) (ds : List ℕ) (f : ℕ → Valve) (k : ℕ)
    → for_each (change g) ds f k ≡ (if contains ds k then g (f k) else f k)
unfolding for_each contains
for_each-change g idem [] f k = refl
for_each-change g idem (d ∷ ds) f k =
    ground (arith, for_each-change g idem ds (change g d f) k, idem (f k))

change-Keeps :
    (g : Valve → Valve) (keeps : (v : Valve) → Keeps v (g v)) (v : Valve) (b : Bool)
    → Keeps v (if b then g v else v)
change-Keeps g keeps v true = keeps v
change-Keeps g keeps v false = Keeps-refl v

for_each-Keeps :
    (g : Valve → Valve) (keeps : (v : Valve) → Keeps v (g v)) (ds : List ℕ) (f : ℕ → Valve) (k : ℕ)
    → Keeps (f k) (for_each (change g) ds f k)
unfolding for_each
for_each-Keeps g keeps [] f k = Keeps-refl (f k)
for_each-Keeps g keeps (d ∷ ds) f k =
    Keeps-trans (change-Keeps g keeps (f k) (k == d)) (for_each-Keeps g keeps ds (change g d f) k)

pub bistable_round :
    (e : Settings) (ds : List ℕ) (f : ℕ → Valve) (k : ℕ) → Keeps (f k) (evaluate_bistable e ds f k)
unfolding evaluate_bistable
bistable_round e ds f k = for_each-Keeps _ (bistable-Keeps e) ds f k

switch_off_twice : (e : Settings) (v : Valve) → switch_off e (switch_off e v) ≡ switch_off e v
unfolding switch_off
switch_off_twice e v = ground arith

-- A valve that stands twice in the queue is switched off once.
pub switch_round :
    (e : Settings) (ds : List ℕ) (f : ℕ → Valve) (k : ℕ)
    → switch_all e ds f k ≡ (if contains ds k then switch_off e (f k) else f k)
unfolding switch_all
switch_round e ds f k = for_each-change _ (switch_off_twice e) ds f k

-- The valve `k` after the question to the valve `d`.
update_same :
    (e : Settings) (f : ℕ → Valve) (d k : ℕ) (b : Bool)
    → is_switching_off_finished e (f k) ≡ (f k, b)
    → update d (is_switching_off_finished e (f d)).0 f k ≡ f k
update_same e f d k b h = elim (Bool-cases (k == d)) [
  | inl eq ↦ ground (arith, h, ap (λ i. (is_switching_off_finished e (f i)).0) ((==_iff k d).0 eq))
  | inr ne ↦ ground arith
]

answer_same :
    (e : Settings) (f : ℕ → Valve) (d k : ℕ) (b : Bool)
    → is_switching_off_finished e (f k) ≡ (f k, b)
    → (d == k) ≡ true
    → (is_switching_off_finished e (f d)).1 ≡ b
answer_same e f d k b h eq =
    ap (λ i. (is_switching_off_finished e (f i)).1) ((==_iff d k).0 eq) ∙ ap (λ r. r.1) h

-- A valve that the question of whether it has finished leaves as it is.
pub remove_round :
    (e : Settings) (ds : List ℕ) (f : ℕ → Valve) (k : ℕ) (b : Bool)
    → is_switching_off_finished e (f k) ≡ (f k, b)
    → ((remove_finished e ds f).0 k ≡ f k)
      × (contains (remove_finished e ds f).1 k ≡ (contains ds k && not b))
unfolding remove_finished contains
remove_round e [] f k b h = (refl, refl)
remove_round e (d ∷ ds) f k b h =
    let g = update d (is_switching_off_finished e (f d)).0 f in
    let same = update_same e f d k b h in
    let ih =
      remove_round e ds g k b (subst (λ w. is_switching_off_finished e w ≡ (w, b)) (sym same) h) in
    elim (Bool-cases (d == k)) [
      | inl eq ↦ (ih.0 ∙ same, ground (arith, ih.1, answer_same e f d k b h eq))
      | inr ne ↦ (ih.0 ∙ same, ground (arith, ih.1))
    ]

finished_of :
    (c : Class) (e : Settings) (v : Valve)
    → is_bottom c ≡ false
    → is_switching_off_finished_of c e v ≡ (v, not v.is_switching_off)
unfolding is_switching_off_finished_of Base.is_switching_off_finished
finished_of _ e v h = ground arith

pub finished_plain :
    (e : Settings) (v : Valve)
    → is_bottom v.class ≡ false
    → is_switching_off_finished e v ≡ (v, not v.is_switching_off)
unfolding is_switching_off_finished
finished_plain e v h = finished_of v.class e v h

class-finished_of :
    (c : Class) (e : Settings) (v : Valve) → (is_switching_off_finished_of c e v).0.class ≡ v.class
unfolding is_switching_off_finished_of BottomMixProof.is_switching_off_finished direct_off_of
class-finished_of Class.v_bottom_mix_proof e v = ground (
  arith,
  (direct_off_of-Keeps Class.v_bottom_mix_proof e (record v { is_closing_mini = false })).class,
)
class-finished_of Class.v_virtual e v = refl
class-finished_of Class.v_do1 e v = refl
class-finished_of Class.v_do2 e v = refl
class-finished_of Class.v_do1_di1_off e v = refl
class-finished_of Class.v_do1_di1_on e v = refl
class-finished_of Class.v_do1_di2 e v = refl
class-finished_of Class.v_do2_di2 e v = refl
class-finished_of Class.v_bistable e v = refl
class-finished_of Class.v_mix_proof e v = refl
class-finished_of Class.v_mini_flushing e v = refl

pub class-remove_finished :
    (e : Settings) (ds : List ℕ) (f : ℕ → Valve) (k : ℕ)
    → ((remove_finished e ds f).0 k).class ≡ (f k).class
unfolding remove_finished is_switching_off_finished
class-remove_finished e [] f k = refl
class-remove_finished e (d ∷ ds) f k =
    class-remove_finished e ds (update d (is_switching_off_finished e (f d)).0 f) k
    ∙ elim (Bool-cases (k == d)) [
      | inl eq ↦
          ground (
            arith,
            class-finished_of (f d).class e (f d),
            ap (λ i. (f i).class) ((==_iff k d).0 eq),
          )
      | inr ne ↦ ground arith
    ]

pub class-switch_off : (e : Settings) (v : Valve) → (switch_off e v).class ≡ v.class
unfolding switch_off
class-switch_off e v = ground (arith, (direct_off-Keeps e v).class)
