-- ===== src/Recipe/Loading.antt =====
-- ParamsRecipeAdapter: the maps, the loading of a recipe into an object, the states of the recipes
-- and their lists (PAC/common/params_recipe_manager.cpp).
use ptusa_main.Common.{
  ℕ, zero, suc, ◌+◌, ◌-◌, ◌/◌, ◌%◌, ◌^◌, Bool, true, false, not, ◌&&◌, ◌||◌, List, [], ◌∷◌, ◌++◌,
  Option, none, some, get_elem?, get_or, set, replicate, length, ltb, leb, ◌==◌, if◌then◌else◌,
}
use ptusa_main.Plant.{word}
use ptusa_main.Recipe.{Float, Recipe, Storage, MapRecord, Item, Adapter, TechObject}
use ptusa_main.Recipe.Values.{recipe_at, is_number, get_rec_par, get_active_recipe}

unfoldable pub add_map : ℕ → ℕ → ℕ → Adapter → Adapter
add_map start_rec_par start_obj_par quantity a =
    if ltb 0 start_rec_par && ltb 0 start_obj_par && ltb 0 quantity
    then record a {
      params_map =
          a.params_map
          ++ record {
            start_rec_par = start_rec_par;
            start_obj_par = start_obj_par;
            quantity = quantity;
          }
            ∷ [];
    }
    else a

-- Ten recipes to a separate list.
unfoldable pub recipe_lists_count : ℕ → ℕ
recipe_lists_count recipes_count =
    recipes_count / 10 + (if ltb 0 (recipes_count % 10) then 1 else 0)

-- `par_float[ index ] = value`, from 1; a number out of range writes to the stub.
unfoldable pub set_par {ℓ} : {V : Type ℓ} → List V → ℕ → V → List V
set_par pars index value =
    if is_number index (length pars) then set pars (index - 1) value else pars

-- What the conversion of a `u_int` to `int` takes off it.
abbrev pub sign_loss : ℕ → ℕ
sign_loss n = if ltb n (2 ^ 31) then 0 else word

-- The `int` that a `u_int` is converted to, with 0 for a negative one: a loop up to it has no round,
-- and getRecPar refuses it as it refuses 0.
abbrev pub int_part : ℕ → ℕ
int_part n = if ltb n (2 ^ 31) then n else 0

module _ (F : Float) where
  -- The map stays within the recipe and the object, as loadParams tests it.
  unfoldable pub is_fitting : Storage F.Value → ℕ → MapRecord → Bool
  is_fitting s par_size m = not (
      ltb (s.recipe_params_count + 1 + sign_loss m.start_rec_par + sign_loss m.quantity)
        (m.start_rec_par + m.quantity)
      || ltb par_size ((m.start_obj_par + m.quantity) % word))

  -- The loop over the parameters of a map, `left` of them from the one with the number `i` on.
  unfoldable pub copy_params : Storage F.Value → ℕ → MapRecord → ℕ → ℕ → List F.Value → List F.Value
  copy_params s rec_no m zero i pars = pars
  copy_params s rec_no m (suc left) i pars = copy_params s rec_no m left (suc i) (
      set_par pars ((m.start_obj_par + i) % word)
        (get_rec_par F s rec_no (int_part ((m.start_rec_par + i) % word))))

  -- The loop over the maps: what it leaves of the parameters, and whether it came to its end.
  unfoldable pub copy_maps :
      Storage F.Value → ℕ → ℕ → List MapRecord → List F.Value → List F.Value × Bool
  copy_maps s rec_no par_size [] pars = (pars, true)
  copy_maps s rec_no par_size (m ∷ ms) pars =
      let rest =
        copy_maps s rec_no par_size ms (copy_params s rec_no m (int_part m.quantity) 0 pars) in
      if is_fitting s par_size m then rest else (pars, false)

  -- loadParams on an object that exists. A number of 2 ^ 31 or more, with which the source would read
  -- past the recipes, is refused.
  unfoldable pub load_object :
      Storage F.Value → ℕ → Adapter × TechObject F.Value → Adapter × TechObject F.Value
  load_object s rec_no (a, o) =
      let copied = copy_maps s rec_no (length o.par_float) a.params_map o.par_float in
      if is_number rec_no s.recipe_count
      then if copied.1
        then (
          record a { is_loaded = true },
          record {
            par_float = copied.0;
            saved = copied.0;
            last_loaded_recipe_nmr = rec_no;
            last_loaded_recipe_name = (recipe_at F s.recipes (rec_no - 1)).name;
          },
        )
        else (a, record o { par_float = copied.0 })
      else (a, o)

  -- loadParams, with the objects counted from 1.
  unfoldable pub load_at :
      Storage F.Value
      → ℕ
      → Option (TechObject F.Value)
      → ℕ
      → Adapter × List (TechObject F.Value)
      → Adapter × List (TechObject F.Value)
  load_at s rec_no none i (a, os) = (a, os)
  load_at s rec_no (some o) i (a, os) =
      let loaded = load_object s rec_no (a, o) in (loaded.0, set os i loaded.1)

  unfoldable pub load_params :
      Storage F.Value
      → ℕ
      → ℕ
      → Adapter × List (TechObject F.Value)
      → Adapter × List (TechObject F.Value)
  load_params s tech_object rec_no (a, os) =
      if leb tech_object (length os) && ltb 0 tech_object
      then load_at s rec_no (get_elem? os (tech_object - 1)) (tech_object - 1) (a, os)
      else (a, os)

  unfoldable pub get_active_state : Storage F.Value → Adapter → ℕ
  get_active_state s a = get_or a.active_recipes (get_active_recipe F s - 1) 0

  unfoldable pub set_active_state : Storage F.Value → Bool → Adapter → Adapter
  set_active_state s is_on a = record a {
    active_recipes = set a.active_recipes (get_active_recipe F s - 1) (if is_on then 1 else 0);
    is_changed = true;
  }

  unfoldable pub item : List (Recipe F.Value) → ℕ → Item
  item rs i = record { number = i + 1; name = (recipe_at F rs i).name }

  -- The body of the loop of refreshRecipeList for an active recipe.
  unfoldable pub append_item : Item → ℕ → Adapter → Adapter
  append_item it i a =
      if a.use_separate_recipe_list
      then if ltb (i / 10) (length a.recipe_lists)
        then record a {
          recipe_lists = set a.recipe_lists (i / 10) (get_or a.recipe_lists (i / 10) [] ++ it ∷ []);
        }
        else a
      else record a { recipe_list = a.recipe_list ++ it ∷ [] }

  -- The loop over `left` recipes from the one with the number `i` on.
  unfoldable pub append_items : List (Recipe F.Value) → ℕ → ℕ → Adapter → Adapter
  append_items rs zero i a = a
  append_items rs (suc left) i a =
      append_items rs left (suc i)
        (if get_or a.active_recipes i 0 == 0 then a else append_item (item rs i) i a)

  -- `for (auto recList: recipeLists) recList.clear( );` clears copies of the separate lists.
  unfoldable pub refresh_recipe_list : Storage F.Value → Adapter → Adapter
  refresh_recipe_list s a = append_items s.recipes s.recipe_count 0 (record a { recipe_list = [] })

  unfoldable pub set_use_separate_recipe_list : Storage F.Value → Bool → Adapter → Adapter
  set_use_separate_recipe_list s is_on a =
      refresh_recipe_list s (record a { use_separate_recipe_list = is_on })

  -- The constructor, before the file is read.
  unfoldable pub new_adapter : Storage F.Value → Adapter
  new_adapter s = refresh_recipe_list s (record {
    params_map = [];
    active_recipes = replicate s.recipe_count 1;
    is_changed = false;
    is_loaded = false;
    recipe_list_changed = false;
    recipe_list = [];
    recipe_lists = replicate (recipe_lists_count s.recipe_count) [];
    use_separate_recipe_list = false;
  })
