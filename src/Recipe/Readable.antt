-- ===== src/Recipe/Readable.antt =====
-- How the values of one recipe are read of the file that has them
-- (PAC/common/params_recipe_manager.cpp).
use ptusa_main.Common.{
  ℕ, zero, suc, ◌≡◌, refl, ap, ◌∙◌, ◌⊎◌, inl, inr, Bool, true, false, List, [], ◌∷◌, ◌++◌, Option,
  some, length, set, ltb, lt→ltb, ◌==◌, Bool-cases, if◌then◌else◌, arith,
}
use mathlib.Core.List.{append_assoc}
use ptusa_main.Recipe.{Chars, Float, Recipe}
use ptusa_main.Recipe.Files.{
  Format, Input, space, newline, extract, line_of, extract_value, write_params, read_params,
}

-- A name that stands on one line.
pub data IsLine : Chars → Type 0 where
  empty_line : IsLine []
  longer_line : {c : ℕ} {cs : Chars} → (c == newline) ≡ false → IsLine cs → IsLine (c ∷ cs)

pub line_of-line :
    (name rest : Chars) → IsLine name → line_of (name ++ newline ∷ rest) ≡ (name, some rest)
unfolding line_of
line_of-line name rest IsLine.empty_line = refl
line_of-line name rest (IsLine.longer_line {c} {cs} h l) = rw (h, line_of-line cs rest l) refl

-- What the standard library promises: a number that is written, with a space or a line's end after
-- it, is read back, and spaces before a number are skipped.
pub record IsReadable {V : Type 0} (format : Format V) : Type 0 where
  pub read_show :
      (n c : ℕ) (cs : Chars)
      → (c ≡ space) ⊎ (c ≡ newline)
      → format.read_int (format.show_int n ++ c ∷ cs) ≡ some (n, c ∷ cs)
  pub read_skip : (cs : Chars) → format.read_int (space ∷ cs) ≡ format.read_int cs
  pub value_skip : (cs : Chars) → format.read_value (space ∷ cs) ≡ format.read_value cs

-- A value whose text gives it back.
abbrev pub IsPrinted : {V : Type 0} → Format V → V → Type 0
IsPrinted format v =
    (cs : Chars) → format.read_value (format.show_value v ++ space ∷ cs) ≡ some (v, space ∷ cs)

pub data AllPrinted {V : Type 0} (format : Format V) : List V → Type 0 where
  no_values : AllPrinted format []
  more_values :
      {v : V} {vs : List V} → IsPrinted format v → AllPrinted format vs → AllPrinted format (v ∷ vs)

-- Recipes of `pc` parameters whose names and values can be written.
pub data AllWritten {V : Type 0} (format : Format V) (pc : ℕ) : List (Recipe V) → Type 0 where
  no_recipes : AllWritten format pc []
  more_recipes :
      {r : Recipe V} {rs : List (Recipe V)}
      → IsLine r.name
      → AllPrinted format r.params
      → length r.params ≡ pc
      → AllWritten format pc rs
      → AllWritten format pc (r ∷ rs)

ltb-suc : (a b : ℕ) → ltb (suc a) (suc b) ≡ ltb a b
ltb-suc a b = ground arith

pub set_cons {ℓ} :
    {A : Type ℓ} (j n : ℕ) (x v : A) (xs : List A)
    → (if ltb (suc j) (suc n) then set (x ∷ xs) (suc j) v else x ∷ xs)
      ≡ x ∷ (if ltb j n then set xs j v else xs)
set_cons j n x v xs = elim (Bool-cases (ltb j n)) [
  | inl e ↦ rw (ltb-suc j n, e) refl
  | inr e ↦ rw (ltb-suc j n, e) refl
]

pub if-same {ℓ} : {A : Type ℓ} (c : Bool) (x : A) → (if c then x else x) ≡ x
if-same true x = refl
if-same false x = refl

pub extract-read {ℓ} :
    {A : Type ℓ} (read : Chars → Option (A × Chars)) (z u a : A) (cs rest : Chars)
    → read cs ≡ some (a, rest)
    → extract read z u (some cs) ≡ (a, some rest)
unfolding extract
extract-read read z u a cs rest e = rw (extract, e) refl

module _ (F : Float) (format : Format F.Value) (h : IsReadable format) where
  -- Beyond the first element the loop does not touch it.
  read_params-shift :
      (min left j : ℕ) (i : Input) (x : F.Value) (xs : List F.Value)
      → read_params F format (suc min) left (suc j) i (x ∷ xs)
        ≡ (x ∷ (read_params F format min left j i xs).0, (read_params F format min left j i xs).1)
  unfolding read_params
  read_params-shift min zero j i x xs = refl
  read_params-shift min (suc left) j i x xs =
      let read = extract_value F format i in
      ap (read_params F format (suc min) left (suc (suc j)) read.1) (set_cons j min x read.0 xs)
      ∙ read_params-shift min left (suc j) read.1 x (if ltb j min then set xs j read.0 else xs)

  extract_value-write :
      (v : F.Value) (w rest : Chars)
      → IsPrinted format v
      → extract_value F format (some (space ∷ ((format.show_value v ++ space ∷ w) ++ rest)))
        ≡ (v, some (space ∷ (w ++ rest)))
  unfolding extract_value
  extract_value-write v w rest p =
      extract-read format.read_value F.zero_value format.unset_value v
        (space ∷ ((format.show_value v ++ space ∷ w) ++ rest)) (space ∷ (w ++ rest))
        (h.value_skip ((format.show_value v ++ space ∷ w) ++ rest)
          ∙ ap format.read_value (append_assoc (format.show_value v) (space ∷ w) rest)
          ∙ p (w ++ rest))

  read_params-first :
      (n : ℕ) (i : Input) (o : F.Value) (os : List F.Value)
      → read_params F format (suc n) (suc n) 0 i (o ∷ os)
        ≡ read_params F format
            (suc n)
            n
            1
            (extract_value F format i).1
            ((extract_value F format i).0 ∷ os)
  unfolding read_params
  read_params-first n i o os = rw (lt→ltb 0 (suc n) (omega arith)) refl

  pub read_params-write_params :
      (vs os : List F.Value) (rest : Chars)
      → AllPrinted format vs
      → length os ≡ length vs
      → read_params F format
          (length vs)
          (length vs)
          0
          (some (space ∷ (write_params F format vs ++ rest)))
          os
        ≡ (vs, some (space ∷ rest))
  unfolding write_params read_params
  read_params-write_params [] [] rest p e = refl
  read_params-write_params [] (o ∷ os) rest p e = absurd (omega (arith, e))
  read_params-write_params (v ∷ vs) [] rest p e = absurd (omega (arith, e))
  read_params-write_params (v ∷ vs) (o ∷ os) rest (AllPrinted.more_values p ps) e =
      read_params-first (length vs)
        (some (space ∷ ((format.show_value v ++ space ∷ write_params F format vs) ++ rest))) o os
      ∙ rw
          (
            extract_value-write v (write_params F format vs) rest p,
            read_params-shift (length vs) (length vs) 0
                (some (space ∷ (write_params F format vs ++ rest))) v os,
            read_params-write_params vs os rest ps (omega (arith, e)),
          )
          refl

  extract_value-skip :
      (cs : Chars) → extract_value F format (some cs) ≡ extract_value F format (some (space ∷ cs))
  unfolding extract_value extract
  extract_value-skip cs = rw (extract, h.value_skip cs) refl

  -- A space before the first value changes nothing.
  pub read_params-skip :
      (min n : ℕ) (cs : Chars) (os : List F.Value)
      → read_params F format min (suc n) 0 (some cs) os
        ≡ read_params F format min (suc n) 0 (some (space ∷ cs)) os
  unfolding read_params
  read_params-skip min n cs os =
      ap (λ read. read_params F format min n 1 read.1 (if ltb 0 min then set os 0 read.0 else os))
        (extract_value-skip cs)
