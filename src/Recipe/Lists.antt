-- ===== src/Recipe/Lists.antt =====
-- The lists of active recipes that refreshRecipeList makes
-- (PAC/common/params_recipe_manager.cpp).
use ptusa_main.Common.{
  ℕ, zero, suc, ◌/◌, ◌<◌, ◌≡◌, refl, sym, ap, ◌∙◌, inl, inr, Bool, true, false, List, [], ◌∷◌, ◌++◌,
  get_or, set, length, length-set, ltb, ltb→lt, ◌==◌, Bool-cases, if◌then◌else◌, arith,
}
use mathlib.Core.List.{append_assoc, append-nil}
use ptusa_main.Recipe.{Float, Recipe, Storage, Item, Adapter}
use ptusa_main.Recipe.Loading.{item, append_item, append_items, refresh_recipe_list}
use ptusa_main.Recipe.Loaded.{get_or-set}

module _ (F : Float) where
  -- The items of the active recipes among `left` of them from the one with the number `i` on.
  unfoldable pub active_items : List (Recipe F.Value) → List ℕ → ℕ → ℕ → List Item
  active_items rs states zero i = []
  active_items rs states (suc left) i =
      let rest = active_items rs states left (suc i) in
      if get_or states i 0 == 0 then rest else item F rs i ∷ rest

  append_item-one :
      (it : Item) (i : ℕ) (a : Adapter)
      → a.use_separate_recipe_list ≡ false
      → append_item F it i a ≡ record a { recipe_list = a.recipe_list ++ it ∷ [] }
  unfolding append_item
  append_item-one it i a e =
      ap
        (λ b.
          if b
          then if ltb (i / 10) (length a.recipe_lists)
            then record a {
              recipe_lists =
                  set a.recipe_lists (i / 10) (get_or a.recipe_lists (i / 10) [] ++ it ∷ []);
            }
            else a
          else record a { recipe_list = a.recipe_list ++ it ∷ [] })
        e

  append_items-one :
      (rs : List (Recipe F.Value)) (left i : ℕ) (a : Adapter)
      → a.use_separate_recipe_list ≡ false
      → append_items F rs left i a
        ≡ record a { recipe_list = a.recipe_list ++ active_items rs a.active_recipes left i }
  unfolding append_items active_items
  append_items-one rs zero i a e =
      ap (λ l. record a { recipe_list = l }) (sym (append-nil a.recipe_list))
  append_items-one rs (suc left) i a e = elim (Bool-cases (get_or a.active_recipes i 0 == 0)) [
    | inl n ↦ rw n (append_items-one rs left (suc i) a e)
    | inr n ↦ rw n (
        ap (append_items F rs left (suc i)) (append_item-one (item F rs i) i a e)
        ∙ append_items-one rs left (suc i)
            (record a { recipe_list = a.recipe_list ++ item F rs i ∷ [] }) e
        ∙ ap (λ l. record a { recipe_list = l })
            (append_assoc a.recipe_list (item F rs i ∷ [])
              (active_items rs a.active_recipes left (suc i))))
  ]

  -- With one list a refresh makes it anew of the active recipes.
  pub refresh_recipe_list-one :
      (s : Storage F.Value) (a : Adapter)
      → a.use_separate_recipe_list ≡ false
      → refresh_recipe_list F s a
        ≡ record a { recipe_list = active_items s.recipes a.active_recipes s.recipe_count 0 }
  unfolding refresh_recipe_list
  refresh_recipe_list-one s a e =
      append_items-one s.recipes s.recipe_count 0 (record a { recipe_list = [] }) e

  -- Those of them that stand in the separate list `j`.
  unfoldable pub items_of_list : ℕ → List (Recipe F.Value) → List ℕ → ℕ → ℕ → List Item
  items_of_list j rs states zero i = []
  items_of_list j rs states (suc left) i =
      let rest = items_of_list j rs states left (suc i) in
      if get_or states i 0 == 0 then rest else if i / 10 == j then item F rs i ∷ rest else rest

  -- What one more item does to the separate list `j`, which exists.
  append_item-separate :
      (it : Item) (i j : ℕ) (a : Adapter)
      → a.use_separate_recipe_list ≡ true
      → j < length a.recipe_lists
      → get_or (append_item F it i a).recipe_lists j [] ≡ (
          if i / 10 == j then get_or a.recipe_lists j [] ++ it ∷ [] else get_or a.recipe_lists j [])
  unfolding append_item
  append_item-separate it i j a e h =
      let lists = a.recipe_lists in
      let l = get_or lists (i / 10) [] ++ it ∷ [] in
      let same : i / 10 ≡ j → l ≡ get_or lists j [] ++ it ∷ [] =
        λ n. ap (λ k. get_or lists k [] ++ it ∷ []) n in
      rw e (elim (Bool-cases (ltb (i / 10) (length lists))) [
        | inl b ↦ rw b (
            rw (get_or-set lists (i / 10) j l [] (ltb→lt (i / 10) (length lists) b))
              (ground (arith, same)))
        | inr b ↦ rw b (ground (arith, b, h))
      ])

  append_item-kept :
      (it : Item) (i : ℕ) (a : Adapter)
      → ((append_item F it i a).active_recipes ≡ a.active_recipes)
        × ((append_item F it i a).use_separate_recipe_list ≡ a.use_separate_recipe_list)
        × (length (append_item F it i a).recipe_lists ≡ length a.recipe_lists)
  unfolding append_item
  append_item-kept it i a =
      ground
        (arith, length-set a.recipe_lists (i / 10) (get_or a.recipe_lists (i / 10) [] ++ it ∷ []))

  -- One round of the loop, where the test has the result `c`.
  append_items-round :
      (rs : List (Recipe F.Value)) (left i : ℕ) (a : Adapter) (c : Bool)
      → (get_or a.active_recipes i 0 == 0) ≡ c
      → append_items F rs (suc left) i a
        ≡ append_items F rs left (suc i) (if c then a else append_item F (item F rs i) i a)
  unfolding append_items
  append_items-round rs left i a c n =
      ap (λ b. append_items F rs left (suc i) (if b then a else append_item F (item F rs i) i a)) n

  append_items-separate :
      (rs : List (Recipe F.Value)) (j left i : ℕ) (a : Adapter)
      → a.use_separate_recipe_list ≡ true
      → j < length a.recipe_lists
      → get_or (append_items F rs left i a).recipe_lists j []
        ≡ get_or a.recipe_lists j [] ++ items_of_list j rs a.active_recipes left i
  unfolding items_of_list append_items
  append_items-separate rs j zero i a e h = sym (append-nil (get_or a.recipe_lists j []))
  append_items-separate rs j (suc left) i a e h =
      elim (Bool-cases (get_or a.active_recipes i 0 == 0)) [
        | inl n ↦
            ap (λ b. get_or b.recipe_lists j []) (append_items-round rs left i a true n)
            ∙ append_items-separate rs j left (suc i) a e h
            ∙ rw n refl
        | inr n ↦
            (let it = item F rs i in
              let next = append_item F it i a in
              let kept = append_item-kept it i a in
              let old = get_or a.recipe_lists j [] in
              ap (λ b. get_or b.recipe_lists j []) (append_items-round rs left i a false n)
              ∙ rw n (
                  append_items-separate rs j left (suc i) next (kept.1 ∙ e)
                    (omega (arith, h, kept.2))
                  ∙ ap
                      (λ states.
                        get_or next.recipe_lists j [] ++ items_of_list j rs states left (suc i))
                      kept.0
                  ∙ ap (λ l. l ++ items_of_list j rs a.active_recipes left (suc i))
                      (append_item-separate it i j a e h)
                  ∙ elim (Bool-cases (i / 10 == j)) [
                    | inl c ↦ rw c (
                        append_assoc old (it ∷ [])
                          (items_of_list j rs a.active_recipes left (suc i)))
                    | inr c ↦ rw c refl
                  ]))
      ]

  -- With separate lists a refresh leaves in each list that exists what it had, followed by the
  -- items of its active recipes: the lists are never cleared.
  pub refresh_recipe_list-separate :
      (s : Storage F.Value) (a : Adapter) (j : ℕ)
      → a.use_separate_recipe_list ≡ true
      → j < length a.recipe_lists
      → get_or (refresh_recipe_list F s a).recipe_lists j []
        ≡ get_or a.recipe_lists j [] ++ items_of_list j s.recipes a.active_recipes s.recipe_count 0
  unfolding refresh_recipe_list
  refresh_recipe_list-separate s a j e h =
      append_items-separate s.recipes j s.recipe_count 0 (record a { recipe_list = [] }) e h
