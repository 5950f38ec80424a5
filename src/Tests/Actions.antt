-- ===== src/Tests/Actions.antt =====
-- The theorems on actions at concrete inputs.
use ptusa_main.Common.{◌≡◌, refl, inl, inr, true, false, [], ◌∷◌, arith, any, contains}
use ptusa_main.Common.Int.{pos}
use ptusa_main.Device
use ptusa_main.Action.Base.{Base, finalize}
use ptusa_main.Action.Jump.{is_jump}
use ptusa_main.Action.Seat.{Seat, open_upper, seat_evaluate}
use ptusa_main.Action.Off.{is_active-finalize}
use ptusa_main.Action.Turns.{InTurn, seat_evaluate-InTurn}
use ptusa_main.Action.FirstMet.{first_met, target, is_jump-first_met}
use ptusa_main.Tests.Plain.{plain, plain-IsSwitching, lit, at}

abbrev lamps : Base
lamps = record { subgroups_cnt = 1; devices = ((1 ∷ 2 ∷ []) ∷ []) ∷ []; par_idx = [] }

is_active-finalize_example : Device.is_active (finalize lamps lit 2) ≡ false
unfolding Device.is_active any contains
is_active-finalize_example = is_active-finalize plain-IsSwitching lamps lit 2

abbrev two_seats : Seat
two_seats = record {
  phase = open_upper;
  next_phase = open_upper;
  active_group_n = 1;
  wait_time = 1000;
  upper = (21 ∷ []) ∷ (22 ∷ []) ∷ [];
  lower = [];
  start_cycle_time = 0;
  is_mode = true;
}

two_seats-InTurn : InTurn two_seats
two_seats-InTurn = record { in_range = inl (omega arith); same = inr refl; washes = inl refl }

seat_evaluate-InTurn_example : InTurn (seat_evaluate (at 5000) two_seats lit).0
seat_evaluate-InTurn_example = seat_evaluate-InTurn (at 5000) two_seats lit two_seats-InTurn

abbrev condition : Base
condition = record {
  subgroups_cnt = 2;
  devices = ((1 ∷ []) ∷ (2 ∷ []) ∷ []) ∷ ((1 ∷ []) ∷ [] ∷ []) ∷ [];
  par_idx = [];
}

is_jump-first_met_example :
    is_jump lit condition (pos 3 ∷ []) ≡ target (pos 3 ∷ []) 0 (first_met lit condition.devices)
is_jump-first_met_example = is_jump-first_met lit condition (pos 3 ∷ []) (λ e. cc)
