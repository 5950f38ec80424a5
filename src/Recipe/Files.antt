-- ===== src/Recipe/Files.antt =====
-- The files of recipes and of their states: serialize and deserialize of ParamsRecipeStorage and
-- ParamsRecipeAdapter, and loadTechObjects and saveTechObjects of ParamsRecipeManager
-- (PAC/common/params_recipe_manager.cpp).
use ptusa_main.Common.{
  ℕ, zero, suc, List, [], ◌∷◌, ◌++◌, Option, none, some, set, replicate, length, ltb, leb, ◌==◌,
  if◌then◌else◌,
}
use ptusa_main.Recipe.{Chars, Float, Recipe, Storage, Adapter, TechObject}

abbrev pub space : ℕ
space = 32

abbrev pub newline : ℕ
newline = 10

-- The characters that are left of an input stream, none once an extraction has failed.
abbrev pub Input : Type 0
Input = Option Chars

-- The numbers in a stream, as the standard library writes and reads them. `unset` is what a variable
-- without initial value holds.
pub record Format (V : Type 0) : Type 0 where
  pub show_int : ℕ → Chars
  pub show_value : V → Chars
  pub read_int : Chars → Option (ℕ × Chars)
  pub read_value : Chars → Option (V × Chars)
  pub unset_int : ℕ
  pub unset_value : V

-- `infile >> x`: a stream that has failed leaves the variable, an extraction that fails makes it 0.
unfoldable pub extract {ℓ} : {A : Type ℓ} → (Chars → Option (A × Chars)) → A → A → Input → A × Input
extract read zero_of unset none = (unset, none)
extract read zero_of unset (some cs) = elim (read cs) [
  | none ↦ (zero_of, none)
  | some (x, rest) ↦ (x, some rest)
]

-- `infile.ignore( )`
unfoldable pub ignore : Input → Input
ignore none = none
ignore (some []) = none
ignore (some (c ∷ cs)) = some cs

-- `std::getline`: the characters before the end of the line.
unfoldable pub line_of : Chars → Chars × Input
line_of [] = ([], none)
line_of (c ∷ cs) =
    let rest = line_of cs in if c == newline then ([], some cs) else (c ∷ rest.0, rest.1)

unfoldable pub getline : Input → Chars × Input
getline none = ([], none)
getline (some cs) = line_of cs

-- `if ( i < techObjectsCount )` and the two assignments.
unfoldable pub set_loaded : {V : Type 0} → ℕ → Chars → ℕ → List (TechObject V) → List (TechObject V)
set_loaded i name nmr [] = []
set_loaded zero name nmr (o ∷ os) =
    record o { last_loaded_recipe_name = name; last_loaded_recipe_nmr = nmr } ∷ os
set_loaded (suc i) name nmr (o ∷ os) = o ∷ set_loaded i name nmr os

module _ (F : Float) (format : Format F.Value) where
  unfoldable pub extract_int : Input → ℕ × Input
  extract_int i = extract format.read_int 0 format.unset_int i

  unfoldable pub extract_value : Input → F.Value × Input
  extract_value i = extract format.read_value F.zero_value format.unset_value i

  -- The parameters of a recipe, each followed by a space.
  unfoldable pub write_params : List F.Value → Chars
  write_params [] = []
  write_params (v ∷ vs) = format.show_value v ++ space ∷ write_params vs

  unfoldable pub write_recipes : List (Recipe F.Value) → Chars
  write_recipes [] = []
  write_recipes (r ∷ rs) = r.name ++ newline ∷ (write_params r.params ++ newline ∷ write_recipes rs)

  -- The text that serialize writes of a storage whose vectors have the sizes that it gives.
  unfoldable pub serialize : Storage F.Value → Chars
  serialize s =
      format.show_int s.recipe_count
      ++ space ∷ (format.show_int s.recipe_params_count ++ newline ∷ write_recipes s.recipes)

  -- The loop over `left` parameters in the file from the one with the number `j` on.
  unfoldable pub read_params : ℕ → ℕ → ℕ → Input → List F.Value → List F.Value × Input
  read_params min_pc zero j i params = (params, i)
  read_params min_pc (suc left) j i params =
      let read = extract_value i in
      read_params min_pc left (suc j) read.1 (if ltb j min_pc then set params j read.0 else params)

  -- The body of the loop over the recipes, up to the test: the recipe of `params_count` parameters that is read.
  unfoldable pub read_recipe : ℕ → ℕ → Input → Recipe F.Value × Input
  read_recipe params_count pc input =
      let name = getline (ignore input) in
      let params =
        read_params (if leb pc params_count then pc else params_count) pc 0 name.1
          (replicate params_count F.zero_value) in
      (record { name = name.0; params = params.0 }, ignore params.1)

  -- The loop over `left` recipes in the file from the one with the number `i` on.
  unfoldable pub read_recipes :
      ℕ → ℕ → ℕ → ℕ → ℕ → Input → List (Recipe F.Value) → List (Recipe F.Value)
  read_recipes params_count min_rc pc zero i input rs = rs
  read_recipes params_count min_rc pc (suc left) i input rs =
      let read = read_recipe params_count pc input in
      read_recipes params_count min_rc pc left (suc i) read.1
        (if ltb i min_rc then set rs i read.0 else rs)

  -- deserialize, none for a file that is not opened.
  unfoldable pub deserialize : Option Chars → Storage F.Value → Storage F.Value
  deserialize none s = s
  deserialize (some file) s =
      let rc = extract_int (some file) in
      let pc = extract_int rc.1 in
      record s {
        recipes =
            read_recipes s.recipe_params_count
              (if leb rc.0 s.recipe_count then rc.0 else s.recipe_count) pc.0 rc.0 0 pc.1 s.recipes;
      }

  unfoldable pub write_states : List ℕ → Chars
  write_states [] = []
  write_states (n ∷ ns) = format.show_int n ++ space ∷ write_states ns

  unfoldable pub serialize_adapter : Adapter → Chars
  serialize_adapter a =
      format.show_int (length a.active_recipes) ++ newline ∷ write_states a.active_recipes

  unfoldable pub read_states : ℕ → ℕ → Input → List ℕ → List ℕ
  read_states zero i input states = states
  read_states (suc left) i input states =
      let read = extract_int input in
      read_states left (suc i) read.1
        (if ltb i (length states) then set states i read.0 else states)

  unfoldable pub deserialize_adapter : Option Chars → Adapter → Adapter
  deserialize_adapter none a = a
  deserialize_adapter (some file) a =
      let count = extract_int (some file) in
      record a { active_recipes = read_states count.0 0 count.1 a.active_recipes }

  unfoldable pub write_objects : List (TechObject F.Value) → Chars
  write_objects [] = []
  write_objects (o ∷ os) =
      o.last_loaded_recipe_name
      ++ newline ∷ (format.show_int o.last_loaded_recipe_nmr ++ newline ∷ write_objects os)

  unfoldable pub save_tech_objects : List (TechObject F.Value) → Chars
  save_tech_objects os = format.show_int (length os) ++ newline ∷ write_objects os

  unfoldable pub read_objects :
      ℕ → ℕ → Input → List (TechObject F.Value) → List (TechObject F.Value)
  read_objects zero i input os = os
  read_objects (suc left) i input os =
      let name = getline (ignore input) in
      -- `int recipeNmr = 0`
      let nmr = extract format.read_int 0 0 name.1 in
      read_objects left (suc i) nmr.1 (set_loaded i name.0 nmr.0 os)

  unfoldable pub load_tech_objects :
      Option Chars → List (TechObject F.Value) → List (TechObject F.Value)
  load_tech_objects none os = os
  load_tech_objects (some file) os =
      -- `auto count = 0`
      let count = extract format.read_int 0 0 (some file) in read_objects count.0 0 count.1 os
