-- ===== src/Recipe/Loaded.antt =====
-- What ParamsRecipeAdapter::loadParams leaves of an object
-- (PAC/common/params_recipe_manager.cpp).
use ptusa_main.Common.{
  ℕ, zero, suc, ◌+◌, ◌-◌, ◌%◌, ◌<◌, ◌≡◌, refl, sym, ap, ◌∙◌, inl, inr, Bool, true, false, ◌&&◌,
  List, [], ◌∷◌, all, get_or, set, length, length-set, ltb, leb, ◌==◌, Bool-cases, if◌then◌else◌,
  arith,
}
use ptusa_main.Plant.{word}
use ptusa_main.Recipe.{Float, Storage, MapRecord, Adapter, TechObject}
use ptusa_main.Recipe.Values.{recipe_at, is_number, get_rec_par}
use ptusa_main.Recipe.Loading.{int_part, set_par, is_fitting, copy_params, copy_maps, load_object}

-- The number of the parameter `k` of the object in the map, from 0, modulo 2 ^ 32 as the index is.
unfoldable pub offset : MapRecord → ℕ → ℕ
offset m k = (k + (word - m.start_obj_par % word)) % word

-- The map is onto the parameter `k` of the object.
unfoldable pub covers : MapRecord → ℕ → Bool
covers m k = ltb (offset m k) (int_part m.quantity)

-- An index of the object, as the source computes it, is `k` in one round of the loop at most.
offset_lem :
    (m : MapRecord) (k i : ℕ)
    → k < word
    → i < word
    → ((m.start_obj_par + i) % word == k) ≡ (offset m k == i)
unfolding offset
offset_lem m k i h l = ground (arith, h, l)

pub get_or-set :
    {A : Type 0} (xs : List A) (i k : ℕ) (v d : A)
    → i < length xs
    → get_or (set xs i v) k d ≡ (if i == k then v else get_or xs k d)
get_or-set [] i k v d h = absurd (omega (arith, h))
get_or-set (x ∷ xs) zero zero v d h = ground arith
get_or-set (x ∷ xs) zero (suc k) v d h = ground arith
get_or-set (x ∷ xs) (suc i) zero v d h = ground arith
get_or-set (x ∷ xs) (suc i) (suc k) v d h = ground (arith, get_or-set xs i k v d (omega (arith, h)))

length-set_par :
    {A : Type 0} (pars : List A) (i : ℕ) (v : A) → length (set_par pars i v) ≡ length pars
unfolding set_par
length-set_par pars i v = ground (arith, length-set pars (i - 1) v)

get_or-set_par :
    {A : Type 0} (pars : List A) (i k : ℕ) (v d : A)
    → k < length pars
    → get_or (set_par pars i v) k d ≡ (if i == suc k then v else get_or pars k d)
unfolding set_par is_number
get_or-set_par pars i k v d h = ground (arith, get_or-set pars (i - 1) k v d)

module _ (F : Float) (s : Storage F.Value) (rec_no : ℕ) where
  -- The value that the map copies in the round `i`.
  abbrev pub map_value : MapRecord → ℕ → F.Value
  map_value m i = get_rec_par F s rec_no (int_part ((m.start_rec_par + i) % word))

  -- The value of the parameter `k`, at first `old`, after all maps: that of the last map onto it.
  unfoldable pub loaded_value : List MapRecord → ℕ → F.Value → F.Value
  loaded_value [] k old = old
  loaded_value (m ∷ ms) k old =
      loaded_value ms k (if covers m k then map_value m (offset m k) else old)

  length-copy_params :
      (m : MapRecord) (left i : ℕ) (pars : List F.Value)
      → length (copy_params F s rec_no m left i pars) ≡ length pars
  unfolding copy_params
  length-copy_params m zero i pars = refl
  length-copy_params m (suc left) i pars =
      length-copy_params m left (suc i)
        (set_par pars ((m.start_obj_par + i) % word) (map_value m i))
      ∙ length-set_par pars ((m.start_obj_par + i) % word) (map_value m i)

  get_or-copy_params :
      (m : MapRecord) (left i k : ℕ) (pars : List F.Value) (d : F.Value)
      → k < length pars
      → suc k < word
      → i + left < word
      → get_or (copy_params F s rec_no m left i pars) k d ≡ (
          if leb i (offset m (suc k)) && ltb (offset m (suc k)) (i + left)
          then map_value m (offset m (suc k))
          else get_or pars k d)
  unfolding copy_params
  get_or-copy_params m zero i k pars d h b l = ground arith
  get_or-copy_params m (suc left) i k pars d h b l =
      let v = map_value m i in
      let next = set_par pars ((m.start_obj_par + i) % word) v in
      let size = length-set_par pars ((m.start_obj_par + i) % word) v in
      let same : (offset m (suc k) ≡ i) → v ≡ map_value m (offset m (suc k)) =
        λ e. ap (map_value m) (sym e) in
      get_or-copy_params m left (suc i) k next d (omega (arith, h, size)) b (omega (arith, l))
      ∙ (rw
          (
            get_or-set_par pars ((m.start_obj_par + i) % word) k v d h,
            offset_lem m (suc k) i b (omega (arith, l)),
          )
          (ground (arith, same)))

  get_or-copy_map :
      (m : MapRecord) (k : ℕ) (pars : List F.Value) (d : F.Value)
      → k < length pars
      → suc k < word
      → get_or (copy_params F s rec_no m (int_part m.quantity) 0 pars) k d
        ≡ (if covers m (suc k) then map_value m (offset m (suc k)) else get_or pars k d)
  unfolding covers
  get_or-copy_map m k pars d h b =
      get_or-copy_params m (int_part m.quantity) 0 k pars d h b (ground arith) ∙ ground arith

  get_or-copy_maps :
      (size : ℕ) (ms : List MapRecord) (k : ℕ) (pars : List F.Value) (d : F.Value)
      → all (is_fitting F s size) ms ≡ true
      → k < length pars
      → suc k < word
      → get_or (copy_maps F s rec_no size ms pars).0 k d ≡ loaded_value ms (suc k) (get_or pars k d)
  unfolding copy_maps loaded_value all
  get_or-copy_maps size [] k pars d f h b = refl
  get_or-copy_maps size (m ∷ ms) k pars d f h b =
      let next = copy_params F s rec_no m (int_part m.quantity) 0 pars in
      let longer = length-copy_params m (int_part m.quantity) 0 pars in
      elim (Bool-cases (is_fitting F s size m)) [
        | inl e ↦ rw e (
            get_or-copy_maps size ms k next d (ground (arith, e, f)) (omega (arith, h, longer)) b
            ∙ ap (loaded_value ms (suc k)) (get_or-copy_map m k pars d h b))
        | inr e ↦ absurd (ground (arith, e, f))
      ]

  -- The loop over the maps comes to its end where all maps fit, and only there.
  copy_maps-all :
      (size : ℕ) (ms : List MapRecord) (pars : List F.Value)
      → (copy_maps F s rec_no size ms pars).1 ≡ all (is_fitting F s size) ms
  unfolding copy_maps all
  copy_maps-all size [] pars = refl
  copy_maps-all size (m ∷ ms) pars =
      let rest = copy_maps-all size ms (copy_params F s rec_no m (int_part m.quantity) 0 pars) in
      ground (arith, rest)

-- What a load of the recipe leaves of an object whose maps all fit.
pub record IsLoaded (F : Float) (s : Storage F.Value) (rec_no : ℕ) (a : Adapter)
    (o p : TechObject F.Value) : Type 0 where
  pub values :
      (k : ℕ)
      → k < length o.par_float
      → get_or p.par_float k F.zero_value
        ≡ loaded_value F s rec_no a.params_map (suc k) (get_or o.par_float k F.zero_value)
  pub is_saved : p.saved ≡ p.par_float
  pub nmr : p.last_loaded_recipe_nmr ≡ rec_no
  pub name : p.last_loaded_recipe_name ≡ (recipe_at F s.recipes (rec_no - 1)).name

-- Where the recipe has a number in range, all maps fit, and the object has less than 2 ^ 32
-- parameters, a load gives each parameter of the object the value that loaded_value describes, that
-- of the last map onto it, with the indices modulo 2 ^ 32, or its old one, saves all parameters,
-- and notes the number and the name of the recipe.
pub load_object-IsLoaded :
    (F : Float) (s : Storage F.Value) (rec_no : ℕ) (a : Adapter) (o : TechObject F.Value)
    → is_number rec_no s.recipe_count ≡ true
    → all (is_fitting F s (length o.par_float)) a.params_map ≡ true
    → length o.par_float < word
    → IsLoaded F s rec_no a o (load_object F s rec_no (a, o)).1
unfolding load_object
load_object-IsLoaded F s rec_no a o n f b =
    rw (n, copy_maps-all F s rec_no (length o.par_float) a.params_map o.par_float, f)
      (record {
        values = λ k h.
            get_or-copy_maps F s rec_no (length o.par_float) a.params_map k o.par_float F.zero_value
              f h (omega (arith, h, b));
        is_saved = refl;
        nmr = refl;
        name = refl;
      })

-- Where some map of the adapter does not fit, a load saves nothing, notes no recipe and leaves the
-- adapter as it was; at most the parameters in the memory are changed.
pub load_object-refused :
    (F : Float) (s : Storage F.Value) (rec_no : ℕ) (a : Adapter) (o : TechObject F.Value)
    → all (is_fitting F s (length o.par_float)) a.params_map ≡ false
    → load_object F s rec_no (a, o)
      ≡ (a, record o { par_float = (load_object F s rec_no (a, o)).1.par_float })
unfolding load_object
load_object-refused F s rec_no a o f =
    rw (copy_maps-all F s rec_no (length o.par_float) a.params_map o.par_float, f)
      (elim (Bool-cases (is_number rec_no s.recipe_count)) [
        | inl e ↦ rw e refl
        | inr e ↦ rw e refl
      ])
