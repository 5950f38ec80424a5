-- ===== src/Recipe/Kept.antt =====
-- The sizes of a storage of recipes, and what keeps them: every index that the methods use is within
-- its vector (PAC/common/params_recipe_manager.cpp).
use ptusa_main.Common.{
  ℕ, zero, suc, ◌-◌, ◌≤◌, ◌<◌, ◌≡◌, refl, ◌∙◌, inl, inr, Bool, true, false, ◌&&◌, List, [], ◌∷◌,
  Option, none, some, get_or, set, replicate, length, length-replicate, length-set, ltb, leb, ◌==◌,
  Bool-cases, if◌then◌else◌, arith,
}
use ptusa_main.Common.Int.{pos_part}
use ptusa_main.Recipe.{Chars, Float, Recipe, Storage}
use ptusa_main.Recipe.Values.{
  is_number, recipe_at, set_rec_par, active_recipe_ref, set_active_recipe, set_active_name,
  set_active_par, new_storage,
}
use ptusa_main.Recipe.Files.{
  Format, Input, read_params, read_recipe, read_recipes, deserialize, extract_value, extract_int,
  getline, ignore,
}
use ptusa_main.Recipe.Commands.{Cmd, Site, set_cmd, do_command, reread_command}

pub data AllSized {V : Type 0} (pc : ℕ) : List (Recipe V) → Type 0 where
  no_recipe : AllSized pc []
  one_more :
      {r : Recipe V} {rs : List (Recipe V)}
      → length r.params ≡ pc
      → AllSized pc rs
      → AllSized pc (r ∷ rs)

-- There are as many recipes as the count says, each has as many parameters, and the active recipe is
-- one of them, or there are none.
pub record IsSized {V : Type 0} (s : Storage V) : Type 0 where
  pub count : length s.recipes ≡ s.recipe_count
  pub params : AllSized s.recipe_params_count s.recipes
  pub active : s.active_recipe ≤ s.recipe_count - 1

AllSized-set :
    {V : Type 0} (pc : ℕ) (rs : List (Recipe V)) (i : ℕ) (r : Recipe V)
    → AllSized pc rs
    → (i < length rs → length r.params ≡ pc)
    → AllSized pc (set rs i r)
AllSized-set pc [] i r a h = AllSized.no_recipe
AllSized-set pc (x ∷ xs) zero r (AllSized.one_more e a) h = AllSized.one_more (h (omega arith)) a
AllSized-set pc (x ∷ xs) (suc i) r (AllSized.one_more e a) h =
    AllSized.one_more e (AllSized-set pc xs i r a (λ b. h (omega (arith, b))))

AllSized-replicate :
    {V : Type 0} (pc n : ℕ) (r : Recipe V) → length r.params ≡ pc → AllSized pc (replicate n r)
AllSized-replicate pc zero r e = AllSized.no_recipe
AllSized-replicate pc (suc n) r e = AllSized.one_more e (AllSized-replicate pc n r e)

is_number-le : (n count : ℕ) → is_number n count ≡ true → n - 1 ≤ count - 1
unfolding is_number
is_number-le n count h = ground (arith, h)

length-set_if :
    {A : Type 0} (c : Bool) (xs : List A) (i : ℕ) (v : A)
    → length (if c then set xs i v else xs) ≡ length xs
length-set_if true xs i v = length-set xs i v
length-set_if false xs i v = refl

AllSized-set_if :
    {V : Type 0} (pc : ℕ) (c : Bool) (rs : List (Recipe V)) (i : ℕ) (r : Recipe V)
    → AllSized pc rs
    → length r.params ≡ pc
    → AllSized pc (if c then set rs i r else rs)
AllSized-set_if pc true rs i r a e = AllSized-set pc rs i r a (λ b. e)
AllSized-set_if pc false rs i r a e = a

module _ (F : Float) where
  recipe_at-sized :
      (pc : ℕ) (rs : List (Recipe F.Value)) (i : ℕ)
      → AllSized pc rs
      → i < length rs
      → length (recipe_at F rs i).params ≡ pc
  unfolding recipe_at
  recipe_at-sized pc [] i a h = absurd (omega (arith, h))
  recipe_at-sized pc (r ∷ rs) zero (AllSized.one_more e a) h = e
  recipe_at-sized pc (r ∷ rs) (suc i) (AllSized.one_more e a) h =
      recipe_at-sized pc rs i a (omega (arith, h))

  -- A recipe in place of the one with the number `i`, whose parameters are as many.
  replace-IsSized :
      (s : Storage F.Value) (i : ℕ) (r : Recipe F.Value)
      → IsSized s
      → length r.params ≡ length (recipe_at F s.recipes i).params
      → IsSized (record s { is_changed = true; recipes = set s.recipes i r })
  replace-IsSized s i r k e = record {
    count = length-set s.recipes i r ∙ k.count;
    params =
        AllSized-set s.recipe_params_count s.recipes i r k.params
          (λ h. e ∙ recipe_at-sized s.recipe_params_count s.recipes i k.params h);
    active = k.active;
  }

  pub new_storage-IsSized : (n pc : ℕ) → IsSized (new_storage F n pc)
  unfolding new_storage
  new_storage-IsSized n pc = record {
    count = length-replicate n (record { name = _; params = replicate pc F.zero_value });
    params =
        AllSized-replicate pc n (record { name = _; params = replicate pc F.zero_value })
          (length-replicate pc F.zero_value);
    active = omega arith;
  }

  set_rec_par-IsSized :
      (rec_no par_no : ℕ) (v : F.Value) (s : Storage F.Value)
      → IsSized s
      → IsSized (set_rec_par F rec_no par_no v s)
  unfolding set_rec_par
  set_rec_par-IsSized rec_no par_no v s k =
      let r = recipe_at F s.recipes (rec_no - 1) in
      elim (Bool-cases
        (is_number rec_no s.recipe_count && is_number par_no s.recipe_params_count)) [
          | inl g ↦
              rw g (elim (Bool-cases (F.differs (get_or r.params (par_no - 1) F.zero_value) v)) [
                | inl d ↦ rw d (
                    replace-IsSized s (rec_no - 1)
                      (record r { params = set r.params (par_no - 1) v }) k
                      (length-set r.params (par_no - 1) v))
                | inr d ↦ rw d k
              ])
          | inr g ↦ rw g k
        ]

  set_active_par-IsSized :
      (index : ℕ) (v : F.Value) (s : Storage F.Value)
      → IsSized s
      → IsSized (set_active_par F index v s)
  unfolding set_active_par
  set_active_par-IsSized index v s k =
      let i = active_recipe_ref F s in
      let r = recipe_at F s.recipes i in
      elim (Bool-cases (is_number index s.recipe_params_count)) [
        | inl g ↦ rw g (elim (Bool-cases (F.differs (get_or r.params (index - 1) F.zero_value) v)) [
          | inl d ↦ rw d (
              replace-IsSized s i (record r { params = set r.params (index - 1) v }) k
                (length-set r.params (index - 1) v))
          | inr d ↦ rw d k
        ])
        | inr g ↦ rw g k
      ]

  set_active_name-IsSized :
      (name : Chars) (s : Storage F.Value) → IsSized s → IsSized (set_active_name F name s)
  unfolding set_active_name
  set_active_name-IsSized name s k =
      let i = active_recipe_ref F s in
      replace-IsSized s i (record (recipe_at F s.recipes i) { name = name }) k refl

  set_active_recipe-IsSized :
      (n : ℕ) (s : Storage F.Value) → IsSized s → IsSized (set_active_recipe F n s).0
  unfolding set_active_recipe
  set_active_recipe-IsSized n s k = elim (Bool-cases (is_number n s.recipe_count)) [
    | inl g ↦ rw g (elim (Bool-cases (s.active_recipe == n - 1)) [
      | inl e ↦ rw e k
      | inr e ↦
          rw e (record {
            count = k.count;
            params = k.params;
            active = is_number-le n s.recipe_count g;
          })
    ])
    | inr g ↦ rw g k
  ]

module _ (F : Float) (format : Format F.Value) where
  length-read_params :
      (min left j : ℕ) (i : Input) (ps : List F.Value)
      → length (read_params F format min left j i ps).0 ≡ length ps
  unfolding read_params
  length-read_params min zero j i ps = refl
  length-read_params min (suc left) j i ps =
      let v = (extract_value F format i).0 in
      let rest = (extract_value F format i).1 in
      length-read_params min left (suc j) rest (if ltb j min then set ps j v else ps)
      ∙ length-set_if (ltb j min) ps j v

  length-read_recipe :
      (pcs pc : ℕ) (i : Input) → length (read_recipe F format pcs pc i).0.params ≡ pcs
  unfolding read_recipe
  length-read_recipe pcs pc i =
      length-read_params (if leb pc pcs then pc else pcs) pc 0 (getline (ignore i)).1
        (replicate pcs F.zero_value)
      ∙ length-replicate pcs F.zero_value

  read_recipes-sized :
      (pcs min pc left i : ℕ) (input : Input) (rs : List (Recipe F.Value))
      → AllSized pcs rs
      → AllSized pcs (read_recipes F format pcs min pc left i input rs)
        × (length (read_recipes F format pcs min pc left i input rs) ≡ length rs)
  unfolding read_recipes
  read_recipes-sized pcs min pc zero i input rs a = (a, refl)
  read_recipes-sized pcs min pc (suc left) i input rs a =
      let r = (read_recipe F format pcs pc input).0 in
      let rest = (read_recipe F format pcs pc input).1 in
      let next =
        read_recipes-sized pcs min pc left (suc i) rest (if ltb i min then set rs i r else rs)
          (AllSized-set_if pcs (ltb i min) rs i r a (length-read_recipe pcs pc input)) in
      (next.0, next.1 ∙ length-set_if (ltb i min) rs i r)

  deserialize-IsSized :
      (file : Option Chars) (s : Storage F.Value)
      → IsSized s
      → IsSized (deserialize F format file s)
  unfolding deserialize
  deserialize-IsSized none s k = k
  deserialize-IsSized (some cs) s k =
      let rc = extract_int F format (some cs) in
      let pc = extract_int F format rc.1 in
      let read =
        read_recipes-sized s.recipe_params_count
          (if leb rc.0 s.recipe_count then rc.0 else s.recipe_count) pc.0 rc.0 0 pc.1 s.recipes
          k.params in
      record { count = read.1 ∙ k.count; params = read.0; active = k.active }

  pub set_cmd-IsSized :
      (file : Option Chars) (cmd : Cmd F.Value) (site : Site F.Value)
      → IsSized site.storage
      → IsSized (set_cmd F format file cmd site).storage
  unfolding set_cmd do_command
  set_cmd-IsSized file (Cmd.set_act v) site k = k
  set_cmd-IsSized file (Cmd.set_cmd_of v) site k =
      let command = pos_part (F.to_int v) in
      elim (Bool-cases (command == reread_command)) [
        | inl e ↦ rw e (deserialize-IsSized file site.storage k)
        | inr e ↦ rw e (elim (Bool-cases (ltb 1000 command)) [ inl b ↦ rw b k | inr b ↦ rw b k ])
      ]
  set_cmd-IsSized file (Cmd.set_name name) site k = set_active_name-IsSized F name site.storage k
  set_cmd-IsSized file (Cmd.set_nmr v) site k = set_active_recipe-IsSized F _ site.storage k
  set_cmd-IsSized file (Cmd.set_par_of i v) site k = set_active_par-IsSized F i v site.storage k

  -- Any commands, each with the file that it may find.
  unfoldable pub run : List (Option Chars × Cmd F.Value) → Site F.Value → Site F.Value
  run [] site = site
  run (c ∷ cs) site = run cs (set_cmd F format c.0 c.1 site)

  -- After any sequence of commands of the server, with any contents of the file of recipes, a
  -- storage has as many recipes as its count says, each with as many parameters, and its active
  -- recipe is one of them, if there is any, where this held before.
  pub run-IsSized :
      (cs : List (Option Chars × Cmd F.Value)) (site : Site F.Value)
      → IsSized site.storage
      → IsSized (run cs site).storage
  unfolding run
  run-IsSized [] site k = k
  run-IsSized (c ∷ cs) site k =
      run-IsSized cs (set_cmd F format c.0 c.1 site) (set_cmd-IsSized c.0 c.1 site k)
