-- ===== src/Recipe.antt =====
-- Recipes of parameters (PAC/common/params_recipe_manager.h, params_recipe_manager.cpp): the storage
-- of recipes, the adapter that loads them into technological objects, and their files.
pub mod Values
pub mod Loading
pub mod Commands
pub mod Kept
pub mod Loaded
pub mod Lists
pub mod Files
pub mod Readable
pub mod Reread
use ptusa_main.Common.{ℕ, Bool, List}
use ptusa_main.Common.Int.{ℤ}

-- The characters of a string.
abbrev pub Chars : Type 0
Chars = List ℕ

-- What the recipes use of the C++ `float`: 0, `!=` and the conversion to `int`.
pub record Float : Type 1 where
  pub Value : Type 0
  pub zero_value : Value
  pub differs : Value → Value → Bool
  pub to_int : Value → ℤ

pub record Recipe (V : Type 0) : Type 0 where
  pub name : Chars
  pub params : List V

-- ParamsRecipeStorage; `active_recipe` is counted from 0, as mActiveRecipe.
pub record Storage (V : Type 0) : Type 0 where
  pub recipe_count : ℕ
  pub recipe_params_count : ℕ
  pub active_recipe : ℕ
  pub is_changed : Bool
  pub recipes : List (Recipe V)

pub record MapRecord : Type 0 where
  pub start_rec_par : ℕ
  pub start_obj_par : ℕ
  pub quantity : ℕ

-- "{number}##{name}||" in a list of recipes.
pub record Item : Type 0 where
  pub number : ℕ
  pub name : Chars

-- ParamsRecipeAdapter, without the pointer to its storage.
pub record Adapter : Type 0 where
  pub params_map : List MapRecord
  pub active_recipes : List ℕ
  pub is_changed : Bool
  pub is_loaded : Bool
  pub recipe_list_changed : Bool
  pub recipe_list : List Item
  pub recipe_lists : List (List Item)
  pub use_separate_recipe_list : Bool

-- A technological object as a recipe sees it: `par_float` in the memory and as saved, and the recipe
-- that was loaded last.
pub record TechObject (V : Type 0) : Type 0 where
  pub par_float : List V
  pub saved : List V
  pub last_loaded_recipe_nmr : ℕ
  pub last_loaded_recipe_name : Chars
