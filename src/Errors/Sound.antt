-- ===== src/Errors/Sound.antt =====
-- The siren after siren_lights_manager::eval (common/PAC-driver/g_errors.cpp).
use ptusa_main.Common.{
  ℕ, ◌≡◌, refl, ◌∙◌, ap, Bool, true, false, ◌&&◌, ◌||◌, not, some, ◌==◌, if◌then◌else◌, arith,
}
use ptusa_main.Plant.{Plant}
use ptusa_main.Plant.Switching.{IsSwitching}
use ptusa_main.Errors.Alarm.{Flags}
use ptusa_main.Errors.Siren.{
  Around, Lights, Siren, eval, eval_lights, eval_red, eval_new, eval_yellow, eval_off, eval_green,
  is_idle, on_if,
}

-- What the siren is turned to: on where the number of the changes of the critical errors, which are
-- cleared or raised, is not the one noted last, or by the flag for a new error of a device, and off
-- where nothing is left to report.
abbrev pub sound : Around → Flags → ℕ → Bool → Bool
sound a f critical_error_n old =
    if not a.is_any_critical_error && not f.is_any_no_ack_error
    then false
    else if not (a.critical_id == critical_error_n) || f.is_new_error
    then true
    else old

module _ ⦃plant : Plant⦄ (laws : IsSwitching plant) where
  open plant use {World, on, off, is_active, get_manual_mode}

  -- The commands to a device, as to another one or to one outside its manual mode.
  record Same (w v : World) (d : ℕ) : Type 0 where
    active : is_active v d ≡ is_active w d
    manual : get_manual_mode v d ≡ get_manual_mode w d

  off_other : (d e : ℕ) (w : World) → (d == e) ≡ false → Same w (off d w) e
  off_other d e w n = record {
    active =
        laws.off_active d e w
        ∙ ap (λ b. if b && not (get_manual_mode w e) then false else is_active w e) n;
    manual = laws.off_manual d e w;
  }

  on_other : (d e : ℕ) (w : World) → (d == e) ≡ false → Same w (on d w) e
  on_other d e w n = record {
    active =
        laws.on_active d e w
        ∙ ap (λ b. if b && not (get_manual_mode w e) then true else is_active w e) n;
    manual = laws.on_manual d e w;
  }

  Same-trans : (u v w : World) (d : ℕ) → Same u v d → Same v w d → Same u w d
  Same-trans u v w d p q = record { active = q.active ∙ p.active; manual = q.manual ∙ p.manual }

  on_if_other : (b : Bool) (d e : ℕ) (w : World) → (d == e) ≡ false → Same w (on_if b d w) e
  on_if_other true d e w n = on_other d e w n
  on_if_other false d e w n = record { active = refl; manual = refl }

  lamp : (b : Bool) (d e : ℕ) (w : World) → (d == e) ≡ false → Same w (on_if b d (off d w)) e
  lamp b d e w n =
      Same-trans w (off d w) (on_if b d (off d w)) e (off_other d e w n)
        (on_if_other b d e (off d w) n)

  red_Same :
      (a : Around) (f : Flags) (l : Lights) (s : Siren) (w : World) (e : ℕ)
      → (l.red == e) ≡ false
      → Same w (eval_red a f l s w).1 e
  unfolding eval_red
  red_Same a f l s w e n = ground (arith, lamp true l.red e w n, lamp false l.red e w n)

  red_number :
      (a : Around) (f : Flags) (l : Lights) (s : Siren) (w : World)
      → (eval_red a f l s w).0.critical_error_n ≡ s.critical_error_n
  unfolding eval_red
  red_number a f l s w = ground arith

  yellow_Same :
      (a : Around) (f : Flags) (l : Lights) (s : Siren) (w : World) (e : ℕ)
      → (l.yellow == e) ≡ false
      → Same w (eval_yellow a f l s w).1 e
  unfolding eval_yellow
  yellow_Same a f l s w e n = ground (arith, lamp true l.yellow e w n, lamp false l.yellow e w n)

  green_Same :
      (a : Around) (l : Lights) (w : World) (e : ℕ)
      → (l.green == e) ≡ false
      → Same w (eval_green a l w) e
  unfolding eval_green
  green_Same a l w e n = lamp a.is_any_important_mode l.green e w n

  off_self : (d : ℕ) (w : World) → get_manual_mode w d ≡ false → is_active (off d w) d ≡ false
  off_self d w m = ground (arith, laws.off_active d d w)

  on_if_self :
      (b : Bool) (d : ℕ) (w : World)
      → get_manual_mode w d ≡ false
      → is_active (on_if b d w) d ≡ (if b then true else is_active w d)
  on_if_self true d w m = ground (arith, laws.on_active d d w)
  on_if_self false d w m = refl

  on_if_manual :
      (b : Bool) (d : ℕ) (w : World) → get_manual_mode (on_if b d w) d ≡ get_manual_mode w d
  on_if_manual true d w = laws.on_manual d d w
  on_if_manual false d w = refl

  new_srn :
      (a : Around) (f : Flags) (l : Lights) (s : Siren) (w : World)
      → get_manual_mode w l.srn ≡ false
      → (is_active (eval_new a f l s w).1 l.srn ≡ (
          if not (a.critical_id == s.critical_error_n) || f.is_new_error
          then true
          else is_active w l.srn))
        × (get_manual_mode (eval_new a f l s w).1 l.srn ≡ false)
  unfolding eval_new
  new_srn a f l s w m =
      let is_new = not (a.critical_id == s.critical_error_n) in
      let w1 = on_if is_new l.srn w in
      let m1 : get_manual_mode w1 l.srn ≡ false = on_if_manual is_new l.srn w ∙ m in
      let first = on_if_self is_new l.srn w m in
      let second = on_if_self f.is_new_error l.srn w1 m1 in
      (ground (arith, first, second), on_if_manual f.is_new_error l.srn w1 ∙ m1)

  off_srn :
      (a : Around) (f : Flags) (l : Lights) (w : World)
      → get_manual_mode w l.srn ≡ false
      → is_active (eval_off a f l w) l.srn ≡ (
          if not a.is_any_critical_error && not f.is_any_no_ack_error
          then false
          else is_active w l.srn)
  unfolding eval_off
  off_srn a f l w m = ground (arith, off_self l.srn w m)

  -- On devices that obey IsSwitching, where the lights and the siren are set, neither the delay at
  -- the start nor the manual mode applies, the siren is none of the lights and not in its manual
  -- mode, an evaluation turns the siren off where there is no critical error and no error to
  -- accept, on where otherwise the number of the changes of the critical errors is not the one
  -- noted last, where clearing an error is a change too, or the flag for a new error of a device is
  -- set, and else leaves it as it is.
  pub is_active-eval :
      (a : Around) (f : Flags) (l : Lights) (s : Siren) (w : World)
      → s.lights ≡ some l
      → is_idle a s ≡ false
      → (l.red == l.srn) ≡ false
      → (l.yellow == l.srn) ≡ false
      → (l.green == l.srn) ≡ false
      → get_manual_mode w l.srn ≡ false
      → is_active (eval a f s w).1 l.srn ≡ sound a f s.critical_error_n (is_active w l.srn)
  unfolding eval eval_lights
  is_active-eval a f l s w h i r y g m =
      let (s1, w1) = eval_red a f l s w in
      let red = red_Same a f l s w l.srn r in
      let (s2, w2) = eval_new a f l s1 w1 in
      let (new, manual) = new_srn a f l s1 w1 (red.manual ∙ m) in
      let w3 = (eval_yellow a f l s2 w2).1 in
      let yellow = yellow_Same a f l s2 w2 l.srn y in
      let quiet = off_srn a f l w3 (yellow.manual ∙ manual) in
      let green = green_Same a l (eval_off a f l w3) l.srn g in
      ground (arith, green.active, quiet, yellow.active, new, red.active, red_number a f l s w)
