-- ===== src/Object/Bits.antt =====
-- The bits of tech_object::state (PAC/common/tech_def.cpp). A word of 32 bits is the list of its bits
-- from the lowest.
use ptusa_main.Common.{
  ℕ, zero, suc, ◌+◌, ◌/◌, ◌%◌, ◌≡◌, ◌≢◌, ◌<◌, refl, sym, ◌∙◌, ap, Bool, false, List, [], ◌∷◌,
  length, length-set, get_or, set, replicate, any, not, ◌==◌, if◌then◌else◌, arith,
}
use native.Mathlib.Decide.{ℕ_discrete}
use mathlib.Core.Path.{subst}

abbrev pub State : Type 0
State = List (List Bool)

-- The constructor: enough words of zeroes for the operations.
unfoldable pub new_state : ℕ → State
new_state operations_count =
    replicate (operations_count / 32 + (if operations_count % 32 == 0 then 0 else 1))
      (replicate 32 false)

-- ( state[ i / 32 ] >> i % 32 ) & 1
unfoldable pub get_bit : State → ℕ → Bool
get_bit state i = get_or (get_or state (i / 32) []) (i % 32) false

-- state[ i / 32 ] | 1UL << i % 32, and & ~( 1UL << i % 32 )
unfoldable pub put_bit : State → ℕ → Bool → State
put_bit state i b = set state (i / 32) (set (get_or state (i / 32) []) (i % 32) b)

-- is_idle: every word is zero.
unfoldable pub is_idle : State → Bool
is_idle state = not (any (any (λ b. b)) state)

get_or-set_other {ℓ} :
    {A : Type ℓ} (xs : List A) (i j : ℕ) (v d : A) → i ≢ j → get_or (set xs i v) j d ≡ get_or xs j d
get_or-set_other [] i j v d n = refl
get_or-set_other (x ∷ xs) zero zero v d n = absurd (n refl)
get_or-set_other (x ∷ xs) zero (suc j) v d n = refl
get_or-set_other (x ∷ xs) (suc i) zero v d n = refl
get_or-set_other (x ∷ xs) (suc i) (suc j) v d n = get_or-set_other xs i j v d (λ e. n (ap suc e))

get_or-set_self {ℓ} :
    {A : Type ℓ} (xs : List A) (i : ℕ) (v d : A) → i < length xs → get_or (set xs i v) i d ≡ v
get_or-set_self [] i v d h = ground arith
get_or-set_self (x ∷ xs) zero v d h = refl
get_or-set_self (x ∷ xs) (suc i) v d h = get_or-set_self xs i v d (omega arith)

-- A word that is written from what it was, in or out of range.
word-set :
    (g : List Bool → List Bool) (state : State) (k : ℕ)
    → g [] ≡ []
    → get_or (set state k (g (get_or state k []))) k [] ≡ g (get_or state k [])
word-set g [] k e = sym e
word-set g (w ∷ state) zero e = refl
word-set g (w ∷ state) (suc k) e = word-set g state k e

pub get_bit-put_other :
    (state : State) (i j : ℕ) (b : Bool) → i ≢ j → get_bit (put_bit state i b) j ≡ get_bit state j
unfolding get_bit put_bit
get_bit-put_other state i j b n = elim (ℕ_discrete (i / 32) (j / 32)) [
  | no ne ↦ ap (λ w. get_or w (j % 32) false) (get_or-set_other state (i / 32) (j / 32) _ [] ne)
  | yes e ↦
      subst
        (λ k.
          get_or (get_or (set state (i / 32) (set (get_or state (i / 32) []) (i % 32) b)) k [])
            (j % 32) false
          ≡ get_or (get_or state k []) (j % 32) false)
        e
        (ap (λ w. get_or w (j % 32) false) (word-set (λ w. set w (i % 32) b) state (i / 32) refl)
          ∙ get_or-set_other (get_or state (i / 32) []) (i % 32) (j % 32) b false
              (λ f. n (omega (arith, e, f))))
]

-- The words are there for the operations, with 32 bits each.
unfoldable pub IsSized : ℕ → State → Type 0
IsSized count state = (i : ℕ) → i < count → i % 32 < length (get_or state (i / 32) [])

pub get_bit-put_self :
    (count : ℕ) (state : State) (i : ℕ) (b : Bool)
    → IsSized count state
    → i < count
    → get_bit (put_bit state i b) i ≡ b
unfolding get_bit put_bit IsSized
get_bit-put_self count state i b z h =
    ap (λ w. get_or w (i % 32) false) (word-set (λ w. set w (i % 32) b) state (i / 32) refl)
    ∙ get_or-set_self (get_or state (i / 32) []) (i % 32) b false (z i h)

pub put_bit-IsSized :
    (count : ℕ) (state : State) (i : ℕ) (b : Bool)
    → IsSized count state
    → IsSized count (put_bit state i b)
unfolding put_bit IsSized
put_bit-IsSized count state i b z j h = elim (ℕ_discrete (i / 32) (j / 32)) [
  | no ne ↦
      rw
        (get_or-set_other state (i / 32) (j / 32) (set (get_or state (i / 32) []) (i % 32) b) [] ne)
        (z j h)
  | yes e ↦
      subst
        (λ k.
          j % 32
          < length (get_or (set state (i / 32) (set (get_or state (i / 32) []) (i % 32) b)) k []))
        e
        (rw
          (
            word-set (λ w. set w (i % 32) b) state (i / 32) refl,
            length-set (get_or state (i / 32) []) (i % 32) b,
          )
          (rw e (z j h)))
]

get_or-replicate {ℓ} : {A : Type ℓ} (n i : ℕ) (a d : A) → i < n → get_or (replicate n a) i d ≡ a
get_or-replicate zero i a d h = ground arith
get_or-replicate (suc n) zero a d h = refl
get_or-replicate (suc n) (suc i) a d h = get_or-replicate n i a d (omega arith)

words_enough : (count i : ℕ) → i < count → i / 32 < count / 32 + (if count % 32 == 0 then 0 else 1)
words_enough count i h = ground arith

pub new_state-IsSized : (count : ℕ) → IsSized count (new_state count)
unfolding new_state IsSized
new_state-IsSized count i h =
    rw
      (get_or-replicate (count / 32 + (if count % 32 == 0 then 0 else 1)) (i / 32)
        (replicate 32 false) [] (words_enough count i h))
      (omega arith)
