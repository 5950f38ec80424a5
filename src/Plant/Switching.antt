-- ===== src/Plant/Switching.antt =====
-- How a plant's devices answer to switching, as far as the actions rely on it: a command changes the
-- device that it names, and only outside its manual mode.
use ptusa_main.Common.{
  ℕ, ◌≡◌, Bool, true, false, not, ◌&&◌, List, [], ◌∷◌, contains, any, for_each, ◌==◌, if◌then◌else◌,
  refl, arith,
}
use ptusa_main.Plant.{Plant}

pub record IsSwitching (plant : Plant) : Type 0 where
  pub off_active :
      (d e : ℕ) (w : plant.World)
      → plant.is_active (plant.off d w) e
        ≡ (if d == e && not (plant.get_manual_mode w e) then false else plant.is_active w e)
  pub on_active :
      (d e : ℕ) (w : plant.World)
      → plant.is_active (plant.on d w) e
        ≡ (if d == e && not (plant.get_manual_mode w e) then true else plant.is_active w e)
  pub state_active :
      (n d e : ℕ) (w : plant.World)
      → plant.is_active (plant.set_state n d w) e
        ≡ (if d == e && not (plant.get_manual_mode w e) then not (n == 0) else plant.is_active w e)
  pub off_manual :
      (d e : ℕ) (w : plant.World)
      → plant.get_manual_mode (plant.off d w) e ≡ plant.get_manual_mode w e
  pub on_manual :
      (d e : ℕ) (w : plant.World)
      → plant.get_manual_mode (plant.on d w) e ≡ plant.get_manual_mode w e
  pub state_manual :
      (n d e : ℕ) (w : plant.World)
      → plant.get_manual_mode (plant.set_state n d w) e ≡ plant.get_manual_mode w e

-- A command that sets the activity of the device that it names to `b`.
pub record Sets (plant : Plant) (command : ℕ → plant.World → plant.World) (b : Bool) : Type 0 where
  pub active :
      (d e : ℕ) (w : plant.World)
      → plant.is_active (command d w) e
        ≡ (if d == e && not (plant.get_manual_mode w e) then b else plant.is_active w e)
  pub manual :
      (d e : ℕ) (w : plant.World)
      → plant.get_manual_mode (command d w) e ≡ plant.get_manual_mode w e

module _ ⦃plant : Plant⦄ (laws : IsSwitching plant) where
  open plant use {World, on, off, set_state, is_active, get_manual_mode}

  pub off-Sets : Sets plant off false
  off-Sets = record { active = laws.off_active; manual = laws.off_manual }

  pub on-Sets : Sets plant on true
  on-Sets = record { active = laws.on_active; manual = laws.on_manual }

  pub set_state-Sets : (n : ℕ) → Sets plant (set_state n) (not (n == 0))
  set_state-Sets n = record { active = laws.state_active n; manual = laws.state_manual n }

-- A command to each device of a list, of a list of lists, and of groups.
abbrev pub in_groups : List (List ℕ) → ℕ → Bool
in_groups groups d = any (λ devs. contains devs d) groups

module _ ⦃plant : Plant⦄ {command : ℕ → plant.World → plant.World} {b : Bool}
    (c : Sets plant command b) where
  open plant use {World, is_active, get_manual_mode}

  pub devices_manual :
      (devs : List ℕ) (w : World) (d : ℕ)
      → get_manual_mode (for_each command devs w) d ≡ get_manual_mode w d
  unfolding for_each
  devices_manual [] w d = refl
  devices_manual (x ∷ devs) w d = rw (devices_manual devs (command x w) d) (c.manual x d w)

  pub devices_active :
      (devs : List ℕ) (w : World) (d : ℕ)
      → is_active (for_each command devs w) d
        ≡ (if contains devs d && not (get_manual_mode w d) then b else is_active w d)
  unfolding for_each contains
  devices_active [] w d = refl
  devices_active (x ∷ devs) w d =
      ground (arith, devices_active devs (command x w) d, c.manual x d w, c.active x d w)

  pub groups_manual :
      (groups : List (List ℕ)) (w : World) (d : ℕ)
      → get_manual_mode (for_each (for_each command) groups w) d ≡ get_manual_mode w d
  unfolding for_each
  groups_manual [] w d = refl
  groups_manual (g ∷ groups) w d =
      rw (groups_manual groups (for_each command g w) d) (devices_manual g w d)

  pub groups_active :
      (groups : List (List ℕ)) (w : World) (d : ℕ)
      → is_active (for_each (for_each command) groups w) d
        ≡ (if in_groups groups d && not (get_manual_mode w d) then b else is_active w d)
  unfolding for_each any
  groups_active [] w d = refl
  groups_active (g ∷ groups) w d = ground (
    arith,
    groups_active groups (for_each command g w) d,
    devices_manual g w d,
    devices_active g w d,
  )
