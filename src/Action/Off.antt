-- ===== src/Action/Off.antt =====
-- What the actions of PAC/common/operation_mngr.cpp do to the activity of each device of a plant.
use ptusa_main.Common.{
  ℕ, ◌≡◌, refl, Bool, true, false, not, ◌&&◌, List, [], ◌∷◌, contains, any, all, is_nil, for_each,
  if◌then◌else◌, arith,
}
use ptusa_main.Plant.{Plant}
use ptusa_main.Plant.Switching.{
  IsSwitching, off-Sets, on-Sets, set_state-Sets, in_groups, devices_active, groups_active,
  groups_manual,
}
use ptusa_main.Action.Base.{Base, is_empty, off_all, finalize}
use ptusa_main.Action.Links.{di_do_group, inverted_di_do_group}

-- Whether the action has the device, in some group and subgroup.
abbrev pub has_device : Base → ℕ → Bool
has_device b d = any (λ groups. in_groups groups d) b.devices

nil_lacks : (devs : List ℕ) (d : ℕ) → is_nil devs ≡ true → contains devs d ≡ false
unfolding contains
nil_lacks [] d h = refl
nil_lacks (x ∷ devs) d h = ground arith

empty_group_lacks :
    (groups : List (List ℕ)) (d : ℕ) → all is_nil groups ≡ true → in_groups groups d ≡ false
unfolding any all
empty_group_lacks [] d h = refl
empty_group_lacks (g ∷ groups) d h = ground (arith, nil_lacks g d, empty_group_lacks groups d)

empty_lacks :
    (devices : List (List (List ℕ))) (d : ℕ)
    → all (all is_nil) devices ≡ true
    → any (λ groups. in_groups groups d) devices ≡ false
unfolding any all
empty_lacks [] d h = refl
empty_lacks (g ∷ devices) d h = ground (arith, empty_group_lacks g d, empty_lacks devices d)

module _ ⦃plant : Plant⦄ (laws : IsSwitching plant) where
  open plant use {World, is_active, get_manual_mode}

  off_all_active :
      (devices : List (List (List ℕ))) (w : World) (d : ℕ)
      → is_active (off_all devices w) d ≡ (
          if any (λ groups. in_groups groups d) devices && not (get_manual_mode w d)
          then false
          else is_active w d)
  unfolding off_all for_each any
  off_all_active [] w d = refl
  off_all_active (g ∷ devices) w d =
      let off = off-Sets laws in
      ground (
        arith,
        off_all_active devices (for_each (for_each plant.off) g w) d,
        groups_manual off g w d,
        groups_active off g w d,
      )

  -- On devices that obey IsSwitching, the method finalize of class action, which the actions on
  -- devices, on devices in reverse, off devices, with a delay and to enable a step by a signal do
  -- not override, leaves off every device that the action has and that is not in the manual mode,
  -- and the activity of all others as it was.
  pub is_active-finalize :
      (b : Base) (w : World) (d : ℕ)
      → is_active (finalize b w) d
        ≡ (if has_device b d && not (get_manual_mode w d) then false else is_active w d)
  unfolding finalize is_empty
  is_active-finalize b w d = ground (arith, empty_lacks b.devices d, off_all_active b.devices w d)

  is_active-di_do_group :
      (input : ℕ) (outputs : List ℕ) (w : World) (d : ℕ)
      → is_active (di_do_group input outputs w) d ≡ (
          if contains outputs d && not (get_manual_mode w d)
          then is_active w input
          else is_active w d)
  unfolding di_do_group
  is_active-di_do_group input outputs w d =
      ground (
        arith,
        devices_active (on-Sets laws) outputs w d,
        devices_active (off-Sets laws) outputs w d,
      )

  is_active-inverted_di_do_group :
      (input : ℕ) (outputs : List ℕ) (w : World) (d : ℕ)
      → is_active (inverted_di_do_group input outputs w) d ≡ (
          if contains outputs d && not (get_manual_mode w d)
          then not (is_active w input)
          else is_active w d)
  unfolding inverted_di_do_group
  is_active-inverted_di_do_group input outputs w d = ground (
    arith,
    devices_active (set_state-Sets laws 0) outputs w d,
    devices_active (set_state-Sets laws 1) outputs w d,
  )

  -- On devices that obey IsSwitching, the outputs of a link DI - DO that are not in the manual mode
  -- take the activity of its input, or the opposite where the link is inverted, and the other
  -- devices keep theirs.
  pub links_active :
      (inverted : Bool) (input : ℕ) (outputs : List ℕ) (w : World) (d : ℕ)
      → is_active
          (if inverted then inverted_di_do_group input outputs w else di_do_group input outputs w)
          d
        ≡ (if contains outputs d && not (get_manual_mode w d)
            then (if inverted then not (is_active w input) else is_active w input)
            else is_active w d)
  links_active true input outputs w d = is_active-inverted_di_do_group input outputs w d
  links_active false input outputs w d = is_active-di_do_group input outputs w d
