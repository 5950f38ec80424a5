-- ===== src/Manager/Strings.antt =====
-- `strcmp` on C strings, by its sign, and its laws.
use ptusa_main.Common.{◌≡◌, refl, ◌⊎◌, inl, inr, [], ◌∷◌, ltb, if◌then◌else◌, arith}
use ptusa_main.Manager.{Name}

-- The first string stands before, is the same as or stands after the second.
pub data Sign : Type 0 where
  before same after : Sign

unfoldable pub strcmp : Name → Name → Sign
strcmp [] [] = same
strcmp [] (y ∷ ys) = before
strcmp (x ∷ xs) [] = after
strcmp (x ∷ xs) (y ∷ ys) =
    let rest = strcmp xs ys in if ltb x y then before else if ltb y x then after else rest

pub strcmp_refl : (s : Name) → strcmp s s ≡ same
unfolding strcmp
strcmp_refl [] = refl
strcmp_refl (x ∷ xs) = ground (arith, strcmp_refl xs)

pub strcmp_same : (s t : Name) → strcmp s t ≡ same → s ≡ t
unfolding strcmp
strcmp_same [] [] h = refl
strcmp_same [] (y ∷ ys) h = ground arith
strcmp_same (x ∷ xs) [] h = ground arith
strcmp_same (x ∷ xs) (y ∷ ys) h = ground (arith, strcmp_same xs ys)

pub strcmp_flip : (s t : Name) → strcmp s t ≡ before → strcmp t s ≡ after
unfolding strcmp
strcmp_flip [] [] h = ground arith
strcmp_flip [] (y ∷ ys) h = refl
strcmp_flip (x ∷ xs) [] h = ground arith
strcmp_flip (x ∷ xs) (y ∷ ys) h = ground (arith, strcmp_flip xs ys)

pub Sign-cases : (s : Sign) → (s ≡ Sign.same) ⊎ ((s ≡ Sign.after) ⊎ (s ≡ Sign.before))
Sign-cases before = inr (inr refl)
Sign-cases same = inl refl
Sign-cases after = inr (inl refl)
