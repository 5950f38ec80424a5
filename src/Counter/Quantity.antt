-- ===== src/Counter/Quantity.antt =====
-- base_counter::calculate_quantity and the methods that read and set the sums
-- (PAC/common/device/device.cpp).
use ptusa_main.Common.{
  ℕ, zero, suc, ◌+◌, ◌-◌, ◌*◌, ◌/◌, ◌%◌, ◌^◌, true, false, ◌&&◌, ◌||◌, not, ltb, ◌==◌,
  if◌then◌else◌,
}
use ptusa_main.Plant.{word}
use ptusa_main.Counter.{Reading, Meter, Daily, Counter}

-- MAX_OVERFLOW.
abbrev pub max_overflow : ℕ
max_overflow = 300

-- The unit in the last place of a `float` with the integral value `n`: its significand has 24 bits.
-- Of the powers from `p` on, the first one or, at the end of the fuel, that of the largest exponent.
unfoldable pub ulp : ℕ → ℕ → ℕ → ℕ
ulp zero p n = p
ulp (suc fuel) p n = let wider = ulp fuel (2 * p) n in if ltb n (p * 2 ^ 24) then p else wider

-- The nearest multiple of `p`, of two the even one.
unfoldable pub nearest : ℕ → ℕ → ℕ
nearest p n =
    let twice = 2 * (n % p) in
    if ltb twice p || (twice == p && n / p % 2 == 0) then n / p * p else (n / p + 1) * p

-- `x += y` for `float` values that are whole and not negative, with a sum below 2 ^ 128.
unfoldable pub add_float : ℕ → ℕ → ℕ
add_float x y = nearest (ulp 104 1 (x + y)) (x + y)

-- The change of the meter; where the reading went back it has passed its maximum or was set to 0.
-- Readings are whole numbers below 2 ^ 23, where this is exact for `float`.
unfoldable pub delta_of : Reading → ℕ → ℕ
delta_of r last =
    let delta = r.max_raw - last + r.raw in
    if ltb r.raw last
    then if ltb max_overflow delta && ltb r.raw delta then r.raw else delta
    else r.raw - last

unfoldable pub calculate_quantity : Reading → Meter → Meter × ℕ
calculate_quantity r m =
    let delta = delta_of r m.last_read_val in
    if m.is_first
    then (if not (r.raw == 0) then record m { last_read_val = r.raw; is_first = false } else m, 0)
    else (
      record m {
        last_read_val = r.raw;
        val = if ltb 0 delta then add_float m.val delta else m.val;
      },
      delta,
    )

unfoldable pub get_value : Counter → ℕ
get_value c = c.total.val

unfoldable pub get_quantity : Counter → ℕ
get_quantity c = c.total.val % word

unfoldable pub get_abs_quantity : Counter → ℕ
get_abs_quantity c = c.abs.val % word

unfoldable pub direct_set_value : ℕ → Counter → Counter
direct_set_value v c = record c { total = record c.total { val = v } }

unfoldable pub set_abs_value : ℕ → Counter → Counter
set_abs_value v c = record c { abs = record c.abs { val = v } }

unfoldable pub reset : Counter → Counter
reset c = record c { total = record c.total { val = 0 } }

unfoldable pub abs_reset : Counter → Counter
abs_reset c = record c { abs = record c.abs { val = 0 } }

-- `pause_daily` and `start_daily` of one daily sum.
unfoldable pub pause_daily : Daily → Daily
pause_daily t = record t { is_paused = true }

unfoldable pub start_daily : Daily → Daily
start_daily t = record t { is_paused = false }

-- What a round does to a daily sum.
unfoldable pub add_daily : ℕ → Daily → Daily
add_daily delta t = if t.is_paused then t else record t { value = add_float t.value delta }

unfoldable pub close_day : Daily → Daily
close_day t = record t { prev_value = t.value; value = 0 }
