-- ===== src/Tests/Recipes.antt =====
-- The theorems on recipes at concrete inputs, with numbers written in unary.
use ptusa_main.Common.{
  ℕ, zero, suc, ◌≡◌, refl, ap, ◌⊎◌, inl, inr, Bool, true, false, not, ◌||◌, List, [], ◌∷◌, ◌++◌,
  Option, none, some, all, replicate, get_or, ◌==◌, if◌then◌else◌, arith,
}
use ptusa_main.Common.Int.{pos}
use ptusa_main.Recipe.{Chars, Float, Recipe, Storage, Adapter, TechObject}
use ptusa_main.Recipe.Files.{Format, space, newline, serialize, deserialize}
use ptusa_main.Recipe.Loading.{is_fitting, copy_maps, item, load_object, refresh_recipe_list}
use ptusa_main.Recipe.Loaded.{IsLoaded, load_object-IsLoaded, load_object-refused}
use ptusa_main.Recipe.Lists.{items_of_list, refresh_recipe_list-separate}
use ptusa_main.Recipe.Readable.{IsLine, IsReadable, AllPrinted, AllWritten}
use ptusa_main.Recipe.Reread.{IsAlike, deserialize-serialize}
use ptusa_main.Recipe.Values.{is_number, recipe_at}
use ptusa_main.Recipe.Commands.{Cmd, Site}
use ptusa_main.Recipe.Kept.{AllSized, IsSized, run, run-IsSized}

abbrev whole : Float
whole = record { Value = ℕ; zero_value = 0; differs = λ a b. not (a == b); to_int = pos }

abbrev one : ℕ
one = 49

-- n + 1 ones for n.
abbrev show : ℕ → Chars
show n = replicate (suc n) one

abbrev count_ones : Chars → ℕ × Chars
count_ones [] = (0, [])
count_ones (c ∷ cs) =
    let rest = count_ones cs in if c == one then (suc rest.0, rest.1) else (0, c ∷ cs)

abbrev read : Chars → Option (ℕ × Chars)
read [] = none
read (c ∷ cs) =
    let rest = read cs in
    if c == space || c == newline then rest else if c == one then some (count_ones cs) else none

abbrev unary : Format ℕ
unary = record {
  show_int = show;
  show_value = show;
  read_int = read;
  read_value = read;
  unset_int = 7;
  unset_value = 7;
}

count_ones-show :
    (n c : ℕ) (cs : Chars)
    → (c ≡ space) ⊎ (c ≡ newline)
    → count_ones (replicate n one ++ c ∷ cs) ≡ (n, c ∷ cs)
count_ones-show zero c cs (inl e) = rw e refl
count_ones-show zero c cs (inr e) = rw e refl
count_ones-show (suc n) c cs e = ap (λ r. (suc r.0, r.1)) (count_ones-show n c cs e)

unary-IsReadable : IsReadable unary
unary-IsReadable = record {
  read_show = λ n c cs e. ap some (count_ones-show n c cs e);
  read_skip = λ cs. refl;
  value_skip = λ cs. refl;
}

abbrev recipe : ℕ → List ℕ → Recipe ℕ
recipe c ps = record { name = c ∷ []; params = ps }

abbrev two_recipes : List (Recipe ℕ)
two_recipes = recipe 65 (3 ∷ 0 ∷ []) ∷ recipe 66 (1 ∷ 2 ∷ []) ∷ []

abbrev storage : List (Recipe ℕ) → Storage ℕ
storage rs = record {
  recipe_count = 2;
  recipe_params_count = 2;
  active_recipe = 0;
  is_changed = false;
  recipes = rs;
}

two_recipes-AllWritten : AllWritten unary 2 two_recipes
two_recipes-AllWritten =
    AllWritten.more_recipes (IsLine.longer_line refl IsLine.empty_line)
      (AllPrinted.more_values (λ cs. ap some (count_ones-show 3 space cs (inl refl)))
        (AllPrinted.more_values (λ cs. ap some (count_ones-show 0 space cs (inl refl)))
          AllPrinted.no_values))
      refl
      (AllWritten.more_recipes (IsLine.longer_line refl IsLine.empty_line)
        (AllPrinted.more_values (λ cs. ap some (count_ones-show 1 space cs (inl refl)))
          (AllPrinted.more_values (λ cs. ap some (count_ones-show 2 space cs (inl refl)))
            AllPrinted.no_values))
        refl AllWritten.no_recipes)

abbrev empty_recipes : List (Recipe ℕ)
empty_recipes = recipe 67 (0 ∷ 0 ∷ []) ∷ recipe 67 (0 ∷ 0 ∷ []) ∷ []

alike : IsAlike (storage two_recipes) (storage empty_recipes)
alike = record {
  same_count = refl;
  same_params = refl;
  some_params = omega arith;
  size = refl;
  other_size = refl;
}

deserialize-serialize_example :
    deserialize whole unary
      (some (serialize whole unary (storage two_recipes)))
      (storage empty_recipes)
    ≡ storage two_recipes
deserialize-serialize_example =
    deserialize-serialize whole unary (storage two_recipes) (storage empty_recipes) unary-IsReadable
      alike two_recipes-AllWritten

abbrev adapter : ℕ → Bool → Adapter
adapter quantity separate = record {
  params_map = record { start_rec_par = 1; start_obj_par = 2; quantity = quantity } ∷ [];
  active_recipes = 1 ∷ 1 ∷ [];
  is_changed = false;
  is_loaded = false;
  recipe_list_changed = false;
  recipe_list = [];
  recipe_lists = (record { number = 1; name = 65 ∷ [] } ∷ []) ∷ [];
  use_separate_recipe_list = separate;
}

abbrev object : TechObject ℕ
object = record {
  par_float = 9 ∷ 9 ∷ 9 ∷ [];
  saved = 9 ∷ 9 ∷ 9 ∷ [];
  last_loaded_recipe_nmr = 0;
  last_loaded_recipe_name = [];
}

load_object-IsLoaded_example :
    IsLoaded whole
      (storage two_recipes)
      2
      (adapter 1 false)
      object
      (load_object whole (storage two_recipes) 2 (adapter 1 false, object)).1
unfolding is_number all is_fitting
load_object-IsLoaded_example =
    load_object-IsLoaded whole (storage two_recipes) 2 (adapter 1 false) object refl refl
      (ground arith)

-- Parameters 2 and 3 of an object that has three.
load_object-refused_example :
    load_object whole (storage two_recipes) 2 (adapter 2 false, object) ≡ (adapter 2 false, object)
unfolding is_number all is_fitting load_object copy_maps
load_object-refused_example =
    load_object-refused whole (storage two_recipes) 2 (adapter 2 false) object refl

refresh_recipe_list-separate_example :
    get_or (refresh_recipe_list whole (storage two_recipes) (adapter 1 true)).recipe_lists 0 []
    ≡ record { number = 1; name = 65 ∷ [] }
      ∷ record { number = 1; name = 65 ∷ [] }
      ∷ record { number = 2; name = 66 ∷ [] }
      ∷ []
unfolding items_of_list item recipe_at
refresh_recipe_list-separate_example =
    refresh_recipe_list-separate whole (storage two_recipes) (adapter 1 true) 0 refl (omega arith)

abbrev site : Site ℕ
site = record { storage = storage two_recipes; adapter = adapter 1 false; objects = object ∷ [] }

site-IsSized : IsSized (storage two_recipes)
site-IsSized = record {
  count = refl;
  params = AllSized.one_more refl (AllSized.one_more refl AllSized.no_recipe);
  active = omega arith;
}

abbrev commands : List (Option Chars × Cmd ℕ)
commands =
    (none, Cmd.set_nmr 2) ∷ (some (49 ∷ []), Cmd.set_cmd_of 789) ∷ (none, Cmd.set_par_of 2 5) ∷ []

run-IsSized_example : IsSized (run whole unary commands site).storage
run-IsSized_example = run-IsSized whole unary commands site site-IsSized
