-- ===== src/Action/Jump.antt =====
-- jump_if_action and enable_step_by_signal of PAC/common/operation_mngr.cpp: the conditions that
-- move an operation to another step or state, and turn extra steps on.
use ptusa_main.Common.{
  ℕ, ◌+◌, Bool, true, false, ◌&&◌, not, Option, none, some, List, [], ◌∷◌, is_nil, get_or, set, all,
  any, if◌then◌else◌,
}
use ptusa_main.Common.Int.{ℤ, negsuc}
use ptusa_main.Plant.{Plant}
use ptusa_main.Action.Base.{Base, Groups, is_empty, main_group, grow}
use ptusa_main.Action.Simple.{is_valve}

abbrev pub g_on_devices : ℕ
g_on_devices = 0

abbrev pub g_off_devices : ℕ
g_off_devices = 1

-- The value for `next` at group `idx`: it is kept where next_n is too short.
abbrev pub next_at : List ℤ → ℕ → ℤ → ℤ
next_at next_n idx next = get_or next_n idx next

unfoldable pub set_next : List ℤ → ℕ → ℤ → List ℤ
unfolding grow
set_next next_n idx value = set (grow idx (negsuc 0) next_n) idx value

module _ ⦃plant : Plant⦄ where
  open plant use {World, get_type, is_active, is_opened, is_closed}

  -- The condition on one device, which has to be on or off.
  unfoldable pub is_met : World → Bool → ℕ → Bool
  is_met w true dev = if is_valve (get_type dev) then is_opened w dev else is_active w dev
  is_met w false dev = if is_valve (get_type dev) then is_closed w dev else not (is_active w dev)

  unfoldable pub jump_check : World → List ℕ → Bool → Bool
  unfolding is_met
  jump_check w devs on = all (is_met w on) devs

  unfoldable pub group_is_met : World → List (List ℕ) → Bool
  unfolding jump_check
  group_is_met w group =
      jump_check w (get_or group g_on_devices []) true
      && jump_check w (get_or group g_off_devices []) false

  -- The loop of `is_jump` from group `idx`, with the value of `next` so far.
  unfoldable pub jump_groups : World → List ℤ → ℕ → ℤ → Groups → Option ℤ
  unfolding group_is_met
  jump_groups w next_n idx next [] = none
  jump_groups w next_n idx next (group ∷ groups) =
      let rest = jump_groups w next_n (idx + 1) (next_at next_n idx next) groups in
      if group_is_met w group then some (next_at next_n idx next) else rest

  -- `some next` where the source returns true with `next`.
  unfoldable pub is_jump : World → Base → List ℤ → Option ℤ
  unfolding jump_groups
  is_jump w b next_n = if is_nil next_n then none else jump_groups w next_n 0 (negsuc 0) b.devices

  unfoldable pub is_any_group_active : World → Base → Bool
  is_any_group_active w b = if is_empty b then false else any (all (is_active w)) (main_group b)

unfoldable pub should_turn_off : Base → Bool → Bool
should_turn_off b turn_off_flag = if is_empty b then true else turn_off_flag
