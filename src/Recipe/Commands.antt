-- ===== src/Recipe/Commands.antt =====
-- ParamsRecipeAdapter::set_cmd, on the commands that ParamsRecipeManager::parseDriverCmd takes apart
-- (PAC/common/params_recipe_manager.cpp).
use ptusa_main.Common.{ℕ, ◌/◌, ◌%◌, Bool, true, List, Option, ltb, ◌==◌, if◌then◌else◌}
use ptusa_main.Common.Int.{ℤ, pos, negsuc, pos_part}
use ptusa_main.Recipe.{Chars, Float, Storage, Adapter, TechObject}
use ptusa_main.Recipe.Values.{set_active_recipe, set_active_name, set_active_par}
use ptusa_main.Recipe.Loading.{set_active_state, load_params}
use ptusa_main.Recipe.Files.{Format, deserialize}

-- The variable that a command names, with the value, the index or the text that it uses of it.
pub data Cmd (V : Type 0) : Type 0 where
  set_act set_cmd_of set_nmr : V → Cmd V
  set_name : Chars → Cmd V
  set_par_of : ℕ → V → Cmd V

-- An adapter, its storage and all technological objects.
pub record Site (V : Type 0) : Type 0 where
  pub storage : Storage V
  pub adapter : Adapter
  pub objects : List (TechObject V)

-- `if ( state )`
unfoldable pub is_true : ℤ → Bool
is_true (pos n) = ltb 0 n
is_true (negsuc n) = true

-- The command that reads the recipes again.
abbrev pub reread_command : ℕ
reread_command = 789

module _ (F : Float) (format : Format F.Value) where
  -- The branch "CMD", with the file of the recipes.
  unfoldable pub do_command : Option Chars → ℕ → Site F.Value → Site F.Value
  do_command file command site =
      let loaded =
        load_params F site.storage (command / 1000) (command % 1000) (site.adapter, site.objects) in
      if command == reread_command
      then record site { storage = deserialize F format file site.storage }
      else if ltb 1000 command
      then record site { adapter = loaded.0; objects = loaded.1 }
      else site

  unfoldable pub set_cmd : Option Chars → Cmd F.Value → Site F.Value → Site F.Value
  set_cmd file (set_act value) site = record site {
    adapter = record (set_active_state F site.storage (is_true (F.to_int value)) site.adapter) {
      recipe_list_changed = true;
    };
  }
  set_cmd file (set_cmd_of value) site = do_command file (pos_part (F.to_int value)) site
  set_cmd file (set_name name) site = record site {
    storage = set_active_name F name site.storage;
    adapter = record site.adapter { recipe_list_changed = true };
  }
  set_cmd file (set_nmr value) site = record site {
    storage = (set_active_recipe F (pos_part (F.to_int value)) site.storage).0;
  }
  set_cmd file (set_par_of index value) site = record site {
    storage = set_active_par F index value site.storage;
  }
