-- ===== src/Recipe/Reread.antt =====
-- What deserialize reads of the files that serialize writes
-- (PAC/common/params_recipe_manager.cpp).
use ptusa_main.Common.{
  ℕ, zero, suc, ◌≡◌, ◌<◌, refl, sym, ap, ◌∙◌, ◌⊎◌, inl, inr, List, [], ◌∷◌, ◌++◌, some, length,
  length-replicate, set, replicate, ltb, leb, lt→ltb, if◌then◌else◌, arith,
}
use mathlib.Core.Path.{subst}
use ptusa_main.Recipe.{Chars, Float, Recipe, Storage}
use ptusa_main.Recipe.Files.{
  Format, Input, space, newline, ignore, getline, extract_int, write_params, write_recipes,
  serialize, read_params, read_recipe, read_recipes, deserialize,
}
use ptusa_main.Recipe.Readable.{
  IsLine, line_of-line, IsReadable, AllPrinted, AllWritten, set_cons, if-same, extract-read,
  read_params-write_params, read_params-skip,
}

module _ (F : Float) (format : Format F.Value) (h : IsReadable format) where
  read_recipes-shift :
      (pcs min pc left i : ℕ) (input : Input) (x : Recipe F.Value) (xs : List (Recipe F.Value))
      → read_recipes F format pcs (suc min) pc left (suc i) input (x ∷ xs)
        ≡ x ∷ read_recipes F format pcs min pc left i input xs
  unfolding read_recipes
  read_recipes-shift pcs min pc zero i input x xs = refl
  read_recipes-shift pcs min pc (suc left) i input x xs =
      let read = read_recipe F format pcs pc input in
      ap (read_recipes F format pcs (suc min) pc left (suc (suc i)) read.1)
        (set_cons i min x read.0 xs)
      ∙ read_recipes-shift pcs min pc left (suc i) read.1 x
          (if ltb i min then set xs i read.0 else xs)

  -- The text of one recipe is read to the line's end after it.
  getline-name :
      (r : Recipe F.Value) (rs : List (Recipe F.Value))
      → IsLine r.name
      → getline (ignore (some (newline ∷ write_recipes F format (r ∷ rs))))
        ≡ (r.name, some (write_params F format r.params ++ newline ∷ write_recipes F format rs))
  unfolding getline ignore write_recipes
  getline-name r rs l =
      line_of-line r.name (write_params F format r.params ++ newline ∷ write_recipes F format rs) l

  read_params-recipe :
      (n : ℕ) (vs : List F.Value) (rest : Chars)
      → AllPrinted format vs
      → length vs ≡ suc n
      → read_params F format
          (if leb (suc n) (suc n) then suc n else suc n)
          (suc n)
          0
          (some (write_params F format vs ++ rest))
          (replicate (suc n) F.zero_value)
        ≡ (vs, some (space ∷ rest))
  read_params-recipe n vs rest p e =
      let os = replicate (suc n) F.zero_value in
      let cs = write_params F format vs ++ rest in
      ap (λ m. read_params F format m (suc n) 0 (some cs) os)
        (if-same (leb (suc n) (suc n)) (suc n))
      ∙ read_params-skip F format h (suc n) n cs os
      ∙ subst (λ k. read_params F format k k 0 (some (space ∷ cs)) os ≡ (vs, some (space ∷ rest))) e
          (read_params-write_params F format h vs os rest p
            (length-replicate (suc n) F.zero_value ∙ sym e))

  read_recipe-write_recipes :
      (n : ℕ) (r : Recipe F.Value) (rs : List (Recipe F.Value))
      → IsLine r.name
      → AllPrinted format r.params
      → length r.params ≡ suc n
      → read_recipe F format (suc n) (suc n) (some (newline ∷ write_recipes F format (r ∷ rs)))
        ≡ (r, some (newline ∷ write_recipes F format rs))
  unfolding read_recipe ignore
  read_recipe-write_recipes n r rs l p e =
      let rest = newline ∷ write_recipes F format rs in
      let os = replicate (suc n) F.zero_value in
      ap
        (λ name.
          recipe_of name.0 (
            read_params F format (if leb (suc n) (suc n) then suc n else suc n) (suc n) 0 name.1
              os))
        (getline-name r rs l)
      ∙ ap (recipe_of r.name) (read_params-recipe n r.params rest p e)
    where
      recipe_of : Chars → List F.Value × Input → Recipe F.Value × Input
      recipe_of name params = (record { name = name; params = params.0 }, ignore params.1)

  read_recipes-write_recipes :
      (n : ℕ) (rs os : List (Recipe F.Value))
      → AllWritten format (suc n) rs
      → length os ≡ length rs
      → read_recipes F format
          (suc n)
          (length rs)
          (suc n)
          (length rs)
          0
          (some (newline ∷ write_recipes F format rs))
          os
        ≡ rs
  unfolding read_recipes
  read_recipes-write_recipes n [] [] w e = refl
  read_recipes-write_recipes n [] (o ∷ os) w e = absurd (omega (arith, e))
  read_recipes-write_recipes n (r ∷ rs) [] w e = absurd (omega (arith, e))
  read_recipes-write_recipes n (r ∷ rs) (o ∷ os) (AllWritten.more_recipes l p c w) e =
      let count = length rs in
      ap
        (λ read.
          read_recipes F format (suc n) (suc count) (suc n) count 1 read.1
            (if ltb 0 (suc count) then read.0 ∷ os else o ∷ os))
        (read_recipe-write_recipes n r rs l p c)
      ∙ ap
          (λ c.
            read_recipes F format (suc n) (suc count) (suc n) count 1
              (some (newline ∷ write_recipes F format rs)) (if c then r ∷ os else o ∷ os))
          (lt→ltb 0 (suc count) (omega arith))
      ∙ read_recipes-shift (suc n) count (suc n) count 0
          (some (newline ∷ write_recipes F format rs)) r os
      ∙ ap (λ xs. r ∷ xs) (read_recipes-write_recipes n rs os w (omega (arith, e)))

  read_recipes-all :
      (p tp trc : ℕ) (rs os : List (Recipe F.Value))
      → tp ≡ p
      → trc ≡ length rs
      → 0 < p
      → AllWritten format p rs
      → length os ≡ length rs
      → read_recipes F format tp
          (if leb (length rs) trc then length rs else trc)
          p
          (length rs)
          0
          (some (newline ∷ write_recipes F format rs))
          os
        ≡ rs
  read_recipes-all zero tp trc rs os a b o w e = absurd (omega (arith, o))
  read_recipes-all (suc n) tp trc rs os a b o w e =
      let text = some (newline ∷ write_recipes F format rs) in
      rw (a, b)
        (ap (λ m. read_recipes F format (suc n) m (suc n) (length rs) 0 text os)
            (if-same (leb (length rs) (length rs)) (length rs))
          ∙ read_recipes-write_recipes n rs os w e)

  extract_int-show :
      (n c : ℕ) (cs : Chars)
      → (c ≡ space) ⊎ (c ≡ newline)
      → extract_int F format (some (format.show_int n ++ c ∷ cs)) ≡ (n, some (c ∷ cs))
  unfolding extract_int
  extract_int-show n c cs o =
      extract-read format.read_int 0 format.unset_int n (format.show_int n ++ c ∷ cs) (c ∷ cs)
        (h.read_show n c cs o)

  extract_int-skip :
      (n c : ℕ) (cs : Chars)
      → (c ≡ space) ⊎ (c ≡ newline)
      → extract_int F format (some (space ∷ (format.show_int n ++ c ∷ cs))) ≡ (n, some (c ∷ cs))
  unfolding extract_int
  extract_int-skip n c cs o =
      extract-read format.read_int 0 format.unset_int n (space ∷ (format.show_int n ++ c ∷ cs))
        (c ∷ cs) (h.read_skip (format.show_int n ++ c ∷ cs) ∙ h.read_show n c cs o)

-- Both storages have the sizes that their counts give, which are the same, and recipes have
-- parameters.
pub record IsAlike {V : Type 0} (s t : Storage V) : Type 0 where
  pub same_count : t.recipe_count ≡ s.recipe_count
  pub same_params : t.recipe_params_count ≡ s.recipe_params_count
  pub some_params : 0 < s.recipe_params_count
  pub size : length s.recipes ≡ s.recipe_count
  pub other_size : length t.recipes ≡ s.recipe_count

-- Where numbers and the values of the recipes are read back as they are written, names stand on one
-- line, and recipes have at least one parameter, the file that serialize writes of a storage gives
-- its recipes to any storage with the same counts that deserialize reads it into, where both have
-- as many recipes as the count says, and changes nothing else there.
pub deserialize-serialize :
    (F : Float) (format : Format F.Value) (s t : Storage F.Value)
    → IsReadable format
    → IsAlike s t
    → AllWritten format s.recipe_params_count s.recipes
    → deserialize F format (some (serialize F format s)) t ≡ record t { recipes = s.recipes }
unfolding deserialize serialize
deserialize-serialize F format s t h a w =
    let tail = newline ∷ write_recipes F format s.recipes in
    let first =
      extract_int-show F format h s.recipe_count space
        (format.show_int s.recipe_params_count ++ tail) (inl refl) in
    let second =
      extract_int-skip F format h s.recipe_params_count newline (write_recipes F format s.recipes)
        (inr refl) in
    let fill = (λ (rc : ℕ) (pc : ℕ × Input). record t {
      recipes =
          read_recipes F format t.recipe_params_count
            (if leb rc t.recipe_count then rc else t.recipe_count) pc.0 rc 0 pc.1 t.recipes;
    }) in
    ap (λ rc. fill rc.0 (extract_int F format rc.1)) first
    ∙ ap (fill s.recipe_count) second
    ∙ ap (λ rs. record t { recipes = rs })
        (subst
          (λ k.
            read_recipes F format t.recipe_params_count
              (if leb k t.recipe_count then k else t.recipe_count) s.recipe_params_count k 0
              (some tail) t.recipes
            ≡ s.recipes)
          a.size
          (read_recipes-all F format h s.recipe_params_count t.recipe_params_count t.recipe_count
            s.recipes t.recipes a.same_params (a.same_count ∙ sym a.size) a.some_params w
            (a.other_size ∙ sym a.size)))
