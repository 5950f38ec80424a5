-- ===== src/Object/Idle.antt =====
-- tech_object::is_idle (PAC/common/tech_def.cpp) against the states of the operations.
use ptusa_main.Common.{
  ℕ, zero, suc, ◌/◌, ◌%◌, ◌≡◌, ◌<◌, refl, sym, ◌∙◌, Bool, true, false, List, [], ◌∷◌, get_or, any,
  arith,
}
use mathlib.Core.Bool.{false≢true}
use ptusa_main.Operation.Mode.{idle, Mode-discrete}
use ptusa_main.Object.Bits.{State, get_bit, is_idle}
use ptusa_main.Object.Defs.{Object}
use ptusa_main.Object.Marked.{IsMarked}

zero_word : (w : List Bool) (i : ℕ) → any (λ b. b) w ≡ false → get_or w i false ≡ false
unfolding any
zero_word [] i h = refl
zero_word (b ∷ w) zero h = ground arith
zero_word (b ∷ w) (suc i) h = ground (arith, zero_word w i)

zero_words :
    (state : State) (k i : ℕ)
    → any (any (λ b. b)) state ≡ false
    → get_or (get_or state k []) i false ≡ false
unfolding any
zero_words [] k i h = refl
zero_words (w ∷ state) zero i h = ground (arith, zero_word w i)
zero_words (w ∷ state) (suc k) i h = ground (arith, zero_words state k i)

idle_bit : (state : State) (i : ℕ) → is_idle state ≡ true → get_bit state i ≡ false
unfolding is_idle get_bit
idle_bit state i h = ground (arith, zero_words state (i / 32) (i % 32))

-- Where the bits of an object are right, as set_mode and the rounds keep them, and is_idle tells
-- that the object is idle, every operation of it is idle.
pub is_idle-current_state :
    (o : Object) (k : ℕ)
    → IsMarked o
    → k < o.operations_count
    → is_idle o.state ≡ true
    → (o.operations (suc k)).current_state ≡ idle
is_idle-current_state o k m h z = elim (Mode-discrete (o.operations (suc k)).current_state idle) [
  | yes e ↦ e
  | no n ↦ absurd (false≢true (sym (idle_bit o.state k z) ∙ m.marked k h n))
]
