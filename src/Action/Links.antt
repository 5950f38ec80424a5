-- ===== src/Action/Links.antt =====
-- The actions of PAC/common/operation_mngr.cpp that copy an input to outputs: DI_DO_action,
-- inverted_DI_DO_action and AI_AO_action. The first device of a group is the input.
use ptusa_main.Common.{ℕ, Bool, true, false, List, [], ◌∷◌, for_each, if◌then◌else◌}
use ptusa_main.Plant.{Plant, Kind}
use ptusa_main.Action.Base.{Base, is_empty, main_group}
use ptusa_main.Action.Simple.{Check, passed, wrong_type}

abbrev pub is_di : Kind → Bool
is_di Kind.dt_di = true
is_di Kind.dt_sb = true
is_di Kind.dt_gs = true
is_di Kind.dt_ls = true
is_di Kind.dt_fs = true
is_di _ = false

abbrev pub is_ai : Kind → Bool
is_ai Kind.dt_ai = true
is_ai Kind.dt_pt = true
is_ai Kind.dt_lt = true
is_ai Kind.dt_fqt = true
is_ai Kind.dt_qt = true
is_ai Kind.dt_te = true
is_ai _ = false

module _ ⦃plant : Plant⦄ where
  open plant use {World, get_type, on, off, set_state, set_value, get_value, is_active}

  -- The loop of `check`: the first group whose first device has no accepted type.
  unfoldable pub check_inputs : (Kind → Bool) → List (List ℕ) → Check
  check_inputs accepts [] = passed
  check_inputs accepts ([] ∷ groups) = check_inputs accepts groups
  check_inputs accepts ((input ∷ outputs) ∷ groups) =
      let rest = check_inputs accepts groups in
      if accepts (get_type input) then rest else wrong_type input

  unfoldable pub di_do_check : Base → Check
  unfolding check_inputs
  di_do_check b = if is_empty b then passed else check_inputs is_di (main_group b)

  unfoldable pub ai_ao_check : Base → Check
  unfolding check_inputs
  ai_ao_check b = if is_empty b then passed else check_inputs is_ai (main_group b)

  -- evaluate_DO of each class, on the group's input and outputs.
  unfoldable pub di_do_group : ℕ → List ℕ → World → World
  di_do_group input outputs w =
      if is_active w input then for_each on outputs w else for_each off outputs w

  unfoldable pub inverted_di_do_group : ℕ → List ℕ → World → World
  inverted_di_do_group input outputs w =
      for_each (set_state (if is_active w input then 0 else 1)) outputs w

  unfoldable pub ai_ao_group : ℕ → List ℕ → World → World
  ai_ao_group input outputs w = for_each (λ dev v. set_value dev (get_value v input) v) outputs w

  unfoldable pub off_group : ℕ → List ℕ → World → World
  off_group input outputs w = for_each off outputs w

  -- The loop over the groups that skips the empty ones.
  unfoldable pub each_link : (ℕ → List ℕ → World → World) → List (List ℕ) → World → World
  each_link f [] w = w
  each_link f ([] ∷ groups) w = each_link f groups w
  each_link f ((input ∷ outputs) ∷ groups) w = each_link f groups (f input outputs w)

  unfoldable pub di_do_evaluate : Base → World → World
  di_do_evaluate b w = if is_empty b then w else each_link di_do_group (main_group b) w

  unfoldable pub inverted_di_do_evaluate : Base → World → World
  inverted_di_do_evaluate b w =
      if is_empty b then w else each_link inverted_di_do_group (main_group b) w

  unfoldable pub ai_ao_evaluate : Base → World → World
  ai_ao_evaluate b w = if is_empty b then w else each_link ai_ao_group (main_group b) w

  unfoldable pub links_finalize : Base → World → World
  links_finalize b w = if is_empty b then w else each_link off_group (main_group b) w
