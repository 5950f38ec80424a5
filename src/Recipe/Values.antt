-- ===== src/Recipe/Values.antt =====
-- ParamsRecipeStorage (PAC/common/params_recipe_manager.cpp). The numbers that the source has as `int`
-- are those that are not negative; it refuses a negative one as it refuses 0.
use ptusa_main.Common.{
  ℕ, suc, ◌-◌, Bool, true, false, ◌&&◌, List, [], ◌∷◌, get_or, set, replicate, ltb, leb, ◌==◌,
  if◌then◌else◌,
}
use ptusa_main.Common.Int.{ℤ, pos, negsuc}
use ptusa_main.Recipe.{Chars, Float, Recipe, Storage}

-- "none"
abbrev pub no_name : Chars
no_name = 110 ∷ 111 ∷ 110 ∷ 101 ∷ []

-- `0 < n && n <= count`
unfoldable pub is_number : ℕ → ℕ → Bool
is_number n count = leb n count && ltb 0 n

module _ (F : Float) where
  -- The constructor, before the file is read.
  unfoldable pub new_storage : ℕ → ℕ → Storage F.Value
  new_storage recipe_count recipe_params_count = record {
    recipe_count = recipe_count;
    recipe_params_count = recipe_params_count;
    active_recipe = 0;
    is_changed = false;
    recipes =
        replicate recipe_count
          (record { name = no_name; params = replicate recipe_params_count F.zero_value });
  }

  -- The recipe that the program names `recipes[ i ]`; one past the end has no parameters.
  unfoldable pub recipe_at : List (Recipe F.Value) → ℕ → Recipe F.Value
  recipe_at rs i = get_or rs i (record { name = []; params = [] })

  unfoldable pub set_rec_par : ℕ → ℕ → F.Value → Storage F.Value → Storage F.Value
  set_rec_par rec_no par_no new_value s =
      let r = recipe_at s.recipes (rec_no - 1) in
      if is_number rec_no s.recipe_count && is_number par_no s.recipe_params_count
      then if F.differs (get_or r.params (par_no - 1) F.zero_value) new_value
        then record s {
          is_changed = true;
          recipes =
              set s.recipes (rec_no - 1)
                (record r { params = set r.params (par_no - 1) new_value });
        }
        else s
      else s

  unfoldable pub get_rec_par : Storage F.Value → ℕ → ℕ → F.Value
  get_rec_par s rec_no par_no =
      if is_number rec_no s.recipe_count && is_number par_no s.recipe_params_count
      then get_or (recipe_at s.recipes (rec_no - 1)).params (par_no - 1) F.zero_value
      else F.zero_value

  unfoldable pub get_active_recipe : Storage F.Value → ℕ
  get_active_recipe s = suc s.active_recipe

  -- With the number that is returned.
  unfoldable pub set_active_recipe : ℕ → Storage F.Value → Storage F.Value × ℤ
  set_active_recipe recipe s =
      if is_number recipe s.recipe_count
      then if s.active_recipe == recipe - 1
        then (s, negsuc 0)
        else (record s { active_recipe = recipe - 1 }, pos (recipe - 1))
      else (s, negsuc 0)

  -- The number of the recipe that `getActiveRecipeRef` refers to.
  unfoldable pub active_recipe_ref : Storage F.Value → ℕ
  active_recipe_ref s = if ltb s.active_recipe s.recipe_count then s.active_recipe else 0

  -- `getActiveRecipeRef( ).name = name`
  unfoldable pub set_active_name : Chars → Storage F.Value → Storage F.Value
  set_active_name name s =
      let i = active_recipe_ref s in
      record s {
        is_changed = true;
        recipes = set s.recipes i (record (recipe_at s.recipes i) { name = name });
      }

  -- The command "PAR" on the active recipe.
  unfoldable pub set_active_par : ℕ → F.Value → Storage F.Value → Storage F.Value
  set_active_par index value s =
      let i = active_recipe_ref s in
      let r = recipe_at s.recipes i in
      if is_number index s.recipe_params_count
      then if F.differs (get_or r.params (index - 1) F.zero_value) value
        then record s {
          is_changed = true;
          recipes = set s.recipes i (record r { params = set r.params (index - 1) value });
        }
        else s
      else s
