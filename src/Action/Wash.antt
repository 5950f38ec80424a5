-- ===== src/Action/Wash.antt =====
-- wash_action of PAC/common/operation_mngr.cpp. A group has five subgroups: request signals, "OK"
-- signals, devices, devices switched on in reverse, and sources of the performance.
use ptusa_main.Common.{
  ℕ, ◌+◌, Bool, true, false, ◌&&◌, ◌||◌, List, [], ◌∷◌, is_nil, get_or, for_each, any,
  if◌then◌else◌, ltb,
}
use ptusa_main.Common.Int.{to_u_int, is_minus_one}
use ptusa_main.Plant.{Plant, Env, Kind}
use ptusa_main.Action.Base.{Base, is_empty, param_of}

-- enum GROUPS
abbrev pub g_di : ℕ
g_di = 0

abbrev pub g_do : ℕ
g_do = 1

abbrev pub g_dev : ℕ
g_dev = 2

abbrev pub g_rev_dev : ℕ
g_rev_dev = 3

abbrev pub g_pump_freq : ℕ
g_pump_freq = 4

abbrev pub g_subgroups_cnt : ℕ
g_subgroups_cnt = 5

abbrev pub takes_value : Kind → Bool
takes_value Kind.dt_m = true
takes_value Kind.dt_vc = true
takes_value Kind.dt_ao = true
takes_value Kind.dt_regulator = true
takes_value _ = false

abbrev pub is_motor : Kind → Bool
is_motor Kind.dt_m = true
is_motor _ = false

abbrev pub subgroup : List (List ℕ) → ℕ → List ℕ
subgroup devs i = get_or devs i []

module _ ⦃plant : Plant⦄ where
  open plant use {
    World, Value, get_type, on, off, set_state, set_value, is_active, get_state, get_value, is_set,
    zero_value, minus_one,
  }

  -- new_state: on with no request signals, or with one that is active.
  unfoldable pub is_requested : List (List ℕ) → World → Bool
  is_requested devs w = is_nil (subgroup devs g_di) || any (is_active w) (subgroup devs g_di)

  -- The parameter of the group, by its number as `u_int`: one out of range gives the stub.
  unfoldable pub performance_param : Env plant → Base → ℕ → Value
  performance_param env b idx =
      let param_idx = to_u_int (param_of b.par_idx idx) in
      if ltb 0 param_idx then env.par param_idx else minus_one

  -- new_val: that of the first source, else the group's parameter, else -1.
  unfoldable pub new_value : Env plant → Base → ℕ → List ℕ → World → Value
  unfolding performance_param
  new_value env b idx [] w = performance_param env b idx
  new_value env b idx (source ∷ _) w = get_value w source

  unfoldable pub drive : (Kind → Bool) → ℕ → Bool → Value → ℕ → World → World
  drive accepts on_state requested value dev w =
      let driven = set_state (if requested then on_state else 0) dev w in
      if is_set value && accepts (get_type dev)
      then set_value dev (if requested then value else zero_value) driven
      else driven

  unfoldable pub is_faulty : List (List ℕ) → World → Bool
  is_faulty devs w =
      any (λ dev. is_minus_one (get_state w dev)) (subgroup devs g_dev)
      || any (λ dev. is_minus_one (get_state w dev)) (subgroup devs g_rev_dev)

  -- The commands to the devices of a group, on their request and performance.
  unfoldable pub drive_all : List (List ℕ) → Bool → Value → World → World
  unfolding drive
  drive_all devs requested value w =
      for_each (drive is_motor 2 requested value) (subgroup devs g_rev_dev)
        (for_each (drive takes_value 1 requested value) (subgroup devs g_dev) w)

  -- The "OK" signals are withdrawn if a device reports an error after the commands.
  unfoldable pub withdraw_ok : List (List ℕ) → World → World
  unfolding is_faulty
  withdraw_ok devs w = if is_faulty devs w then for_each off (subgroup devs g_do) w else w

  unfoldable pub wash_group : Env plant → Base → ℕ → List (List ℕ) → World → World
  unfolding is_requested new_value drive_all withdraw_ok
  wash_group env b idx devs w =
      let ready = for_each on (subgroup devs g_do) w in
      let value = new_value env b idx (subgroup devs g_pump_freq) ready in
      withdraw_ok devs (drive_all devs (is_requested devs ready) value ready)

  unfoldable pub wash_groups : Env plant → Base → ℕ → List (List (List ℕ)) → World → World
  wash_groups env b idx [] w = w
  wash_groups env b idx (devs ∷ groups) w =
      wash_groups env b (idx + 1) groups (wash_group env b idx devs w)

  unfoldable pub wash_evaluate : Env plant → Base → World → World
  unfolding wash_groups
  wash_evaluate env b w = if is_empty b then w else wash_groups env b 0 b.devices w

  unfoldable pub wash_off_group : List (List ℕ) → World → World
  wash_off_group devs w =
      for_each off (subgroup devs g_rev_dev)
        (for_each off (subgroup devs g_dev) (for_each off (subgroup devs g_do) w))

  unfoldable pub wash_finalize : Base → World → World
  unfolding wash_off_group
  wash_finalize b w = if is_empty b then w else for_each wash_off_group b.devices w
