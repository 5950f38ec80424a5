-- ===== src/Counter/Pulses.antt =====
-- The pulses that base_counter counts from a register of 16 bits (PAC/common/device/device.cpp).
use ptusa_main.Common.{
  ℕ, ◌≡◌, refl, ap, ◌∙◌, ◌≤◌, ◌<◌, suc, ◌+◌, ◌/◌, ◌%◌, ◌^◌, false, List, [], ◌∷◌, arith,
}
use ptusa_main.Counter.{Reading, Meter, Counter}
use ptusa_main.Counter.Quantity.{
  ulp, nearest, add_float, delta_of, calculate_quantity, max_overflow,
}
use ptusa_main.Counter.State.{evaluate_io, get_state, count_total, count_abs, new_day, watch}

unfoldable pub run : List Reading → Counter → Counter
run [] c = c
run (r ∷ rs) c = run rs (evaluate_io r c)

-- Readings of a register that counts pulses modulo 2 ^ 16, from `t` pulses in all to `u`, with no more
-- than MAX_OVERFLOW pulses between two of them.
pub data Counts : ℕ → List Reading → ℕ → Type 0 where
  no_reading : {t : ℕ} → Counts t [] t
  reading :
      {t u : ℕ} {r : Reading} {rs : List Reading} (d : ℕ)
      → d ≤ max_overflow
      → r.max_raw ≡ 65535
      → r.raw ≡ (t + d) % 65536
      → Counts (t + d) rs u
      → Counts t (r ∷ rs) u

-- One reading: a pulse is lost where the register passes its maximum.
delta_lem :
    (r : Reading) (t d : ℕ)
    → d ≤ max_overflow
    → r.max_raw ≡ 65535
    → r.raw ≡ (t + d) % 65536
    → delta_of r (t % 65536) + (t + d) / 65536 ≡ d + t / 65536
unfolding delta_of
delta_lem r t d b m e = ground (arith, b, m, e)

abs_round : (r : Reading) (c : Counter) → (evaluate_io r c).abs ≡ (calculate_quantity r c.abs).0
unfolding evaluate_io get_state count_total count_abs new_day watch
abs_round r c = ground arith

ulp_small : (fuel n : ℕ) → n < 2 ^ 24 → ulp (suc fuel) 1 n ≡ 1
unfolding ulp
ulp_small fuel n h = ground (arith, h)

nearest_one : (n : ℕ) → nearest 1 n ≡ n
unfolding nearest
nearest_one n = ground arith

-- Sums below 2 ^ 24 are exact.
add_float_small : (x y : ℕ) → x + y < 2 ^ 24 → add_float x y ≡ x + y
unfolding add_float
add_float_small x y h = rw (ulp_small 103 (x + y) h) (nearest_one (x + y))

meter_round :
    (r : Reading) (m : Meter) (t d : ℕ)
    → d ≤ max_overflow
    → r.max_raw ≡ 65535
    → r.raw ≡ (t + d) % 65536
    → m.is_first ≡ false
    → m.last_read_val ≡ t % 65536
    → m.val + d < 2 ^ 24
    → ((calculate_quantity r m).0.val + (t + d) / 65536 ≡ m.val + d + t / 65536)
      × ((calculate_quantity r m).0.is_first ≡ false)
      × ((calculate_quantity r m).0.last_read_val ≡ (t + d) % 65536)
unfolding calculate_quantity
meter_round r m t d b x e f l k =
    let step : delta_of r m.last_read_val + (t + d) / 65536 ≡ d + t / 65536 =
      rw l (delta_lem r t d b x e) in
    let exact = add_float_small m.val (delta_of r m.last_read_val) (omega (arith, step, k)) in
    (ground (arith, step, exact, f), ground (arith, f), ground (arith, e, f))

Counts-le : (t u : ℕ) (rs : List Reading) → Counts t rs u → t ≤ u
Counts-le t u [] no_reading = ground arith
Counts-le t u (r ∷ rs) (reading d b x e k) = omega (arith, Counts-le (t + d) u rs k)

-- Where the raw value of a counter is a register of 16 bits that counts pulses, with at most 300 of
-- them between two rounds, the counter has taken its first reading, and the absolute sum with all
-- pulses stays below 2 ^ 24, where a float has every whole number, any sequence of rounds adds to
-- the absolute sum the pulses there were, less one for each time that the register has passed its
-- maximum.
pub val-run :
    (t u : ℕ) (rs : List Reading) (c : Counter)
    → Counts t rs u
    → c.abs.is_first ≡ false
    → c.abs.last_read_val ≡ t % 65536
    → c.abs.val + u < t + 2 ^ 24
    → (run rs c).abs.val + t + u / 65536 ≡ c.abs.val + u + t / 65536
unfolding run
val-run t u [] c no_reading f l b = refl
val-run t u (r ∷ rs) c (reading d h x e k) f l b =
    let more = Counts-le (t + d) u rs k in
    let m = meter_round r c.abs t d h x e f l (omega (arith, more, b)) in
    let same = abs_round r c in
    let added : (evaluate_io r c).abs.val + (t + d) / 65536 ≡ c.abs.val + d + t / 65536 =
      rw same m.0 in
    ground (
      arith,
      val-run (t + d) u rs (evaluate_io r c) k (ap (λ z. z.is_first) same ∙ m.1)
          (ap (λ z. z.last_read_val) same ∙ m.2) (omega (arith, added, b)),
      added,
    )
