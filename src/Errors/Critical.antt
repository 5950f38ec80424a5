-- ===== src/Errors/Critical.antt =====
-- PAC_critical_errors_manager of PAC/common/PAC_err.cpp and PAC_err.h: the critical errors of the
-- controller, the number of their changes, and the status light.
use ptusa_main.Common.{
  ℕ, ◌+◌, ◌%◌, ◌^◌, Bool, false, ◌&&◌, ◌||◌, not, Option, none, some, List, [], ◌∷◌, ◌++◌, ◌==◌,
  ltb, if◌then◌else◌, is_nil,
}
use ptusa_main.Plant.{get_delta_millisec, word}

-- The class and the subclass are numbers of ALARM_CLASS and ALARM_SUBCLASS.
pub record CriticalError : Type 0 where
  pub err_class : ℕ
  pub err_sub_class : ℕ
  pub param : ℕ

-- The arguments of a call, `p2` cast to `unsigned int`.
abbrev pub make_error : ℕ → ℕ → ℕ → CriticalError
make_error eclass p1 p2 = record { err_class = eclass; err_sub_class = p1; param = p2 % word }

pub record Critical : Type 0 where
  pub errors : List CriticalError
  pub errors_id : ℕ

-- The constructor.
unfoldable pub initial : Critical
initial = record { errors = []; errors_id = 0 }

abbrev pub is_same : CriticalError → CriticalError → Bool
is_same x y = x.err_class == y.err_class && x.err_sub_class == y.err_sub_class && x.param == y.param

unfoldable pub find : List CriticalError → CriticalError → Bool
find [] y = false
find (x ∷ xs) y = is_same x y || find xs y

-- `errors.erase( errors.begin() + idx )` at the first error that is the same.
unfoldable pub erase_first : List CriticalError → CriticalError → List CriticalError
erase_first [] y = []
erase_first (x ∷ xs) y = if is_same x y then xs else x ∷ erase_first xs y

-- `errors_id++` on u_int_2.
abbrev pub next_id : ℕ → ℕ
next_id n = (n + 1) % 2 ^ 16

unfoldable pub set_global_error : CriticalError → Critical → Critical
set_global_error y s =
    if find s.errors y
    then s
    else record { errors = s.errors ++ y ∷ []; errors_id = next_id s.errors_id }

unfoldable pub reset_global_error : CriticalError → Critical → Critical
reset_global_error y s =
    if find s.errors y
    then record { errors = erase_first s.errors y; errors_id = next_id s.errors_id }
    else s

unfoldable pub is_any_error : Critical → Bool
is_any_error s = not (is_nil s.errors)

unfoldable pub get_id : Critical → ℕ
get_id s = s.errors_id

-- What `show_errors` tells the status light.
pub data LedCmd : Type 0 where
  led_red led_green led_off : LedCmd

-- The static variables of `show_errors`.
pub record Show : Type 0 where
  pub show_step : ℕ
  pub start_time : ℕ

-- A step of the switch on `show_step`, with the command for the step 0.
unfoldable pub show_round : ℕ → LedCmd → Show → Show × Option LedCmd
show_round now lit v =
    if v.show_step == 0
    then (if ltb 500 (get_delta_millisec now v.start_time)
        then (record { show_step = 1; start_time = now }, some lit)
        else (v, none))
    else if v.show_step == 1
    then (if ltb 500 (get_delta_millisec now v.start_time)
        then (record { show_step = 0; start_time = now }, some led_off)
        else (v, none))
    else (v, none)

unfoldable pub show_errors : ℕ → Critical → Show → Show × Option LedCmd
show_errors now s v =
    if not (is_nil s.errors) then show_round now led_red v else show_round now led_green v
