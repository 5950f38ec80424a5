-- ===== src/Action/Base.antt =====
-- class action of PAC/common/operation_mngr.cpp: the groups of devices and the parameters that every
-- action has, and the walks over them. A device is a number.
use ptusa_main.Common.{
  ℕ, suc, ◌-◌, Bool, ◌&&◌, not, List, [], ◌∷◌, ◌++◌, length, is_nil, get_or, set, replicate,
  for_each, all, any, if◌then◌else◌,
}
use ptusa_main.Common.Int.{ℤ, pos, is_negative}
use ptusa_main.Plant.{Plant}

-- std::vector< std::vector< std::vector< device* > > >
abbrev pub Groups : Type 0
Groups = List (List (List ℕ))

pub record Base : Type 0 where
  pub subgroups_cnt : ℕ
  pub devices : Groups
  pub par_idx : List ℤ

-- The constructor: one group with the wanted number of empty subgroups.
unfoldable pub new_base : ℕ → Base
new_base cnt = record { subgroups_cnt = cnt; devices = replicate cnt [] ∷ []; par_idx = [] }

unfoldable pub is_empty : Base → Bool
is_empty b = all (all is_nil) b.devices

-- while ( n >= v.size() ) v.emplace_back( x )
unfoldable pub grow {ℓ} : {A : Type ℓ} → ℕ → A → List A → List A
grow n x v = v ++ replicate (suc n - length v) x

unfoldable pub add_dev : Base → ℕ → ℕ → ℕ → Base
unfolding grow
add_dev b dev group subgroup =
    let devices = grow group (replicate b.subgroups_cnt []) b.devices in
    let subgroups = grow subgroup [] (get_or devices group []) in
    let devs = get_or subgroups subgroup [] in
    record b { devices = set devices group (set subgroups subgroup (devs ++ dev ∷ [])) }

unfoldable pub set_param_idx : Base → ℕ → ℤ → Base
unfolding grow
set_param_idx b position idx = record b {
  par_idx = set (grow position (pos 0) b.par_idx) position idx;
}

unfoldable pub clear_dev : Base → Base
clear_dev b = record b { devices = [] }

-- devices[ MAIN_GROUP ] and devices[ MAIN_GROUP ][ MAIN_SUBGROUP ]. The source reads them after the
-- test `is_empty()` only.
abbrev pub main_group : Base → List (List ℕ)
main_group b = get_or b.devices 0 []

abbrev pub main_subgroup : Base → List ℕ
main_subgroup b = get_or (main_group b) 0 []

-- par_idx.size() > idx ? par_idx[ idx ] : 0
abbrev pub param_of : List ℤ → ℕ → ℤ
param_of par_idx idx = get_or par_idx idx (pos 0)

module _ ⦃plant : Plant⦄ where
  open plant use {World, off, get_state, is_suppressed}

  -- action::finalize: all devices off, group by group.
  unfoldable pub off_all : Groups → World → World
  off_all devices w = for_each (for_each (for_each off)) devices w

  unfoldable pub finalize : Base → World → World
  unfolding off_all
  finalize b w = if is_empty b then w else off_all b.devices w

  abbrev pub has_error : World → ℕ → Bool
  has_error w dev = is_negative (get_state w dev) && not (is_suppressed w dev)

  -- action::check_devices: whether the result is not 0, which is whether some name was written.
  unfoldable pub check_devices : Base → World → Bool
  check_devices b w = any (any (any (has_error w))) b.devices
