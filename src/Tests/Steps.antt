-- ===== src/Tests/Steps.antt =====
-- The theorem on the moves between the steps of a state at a concrete input.
use ptusa_main.Common.{ℕ, ◌≡◌, refl, some}
use ptusa_main.Device.{Device}
use ptusa_main.Operation.Defs.{Operation}
use ptusa_main.Operation.Clean.{IsClean}
use ptusa_main.Operation.Steps.{to_step, is_numbered, move, move-numbered}
use ptusa_main.Tests.Plain.{plain, at, lit}
use ptusa_main.Tests.Operations.{wash_operation, wash-IsClean}

move-numbered_example :
    (r : Operation × (ℕ → Device ℕ)) × (move (at 100) (to_step 2) wash_operation lit ≡ some r)
    × IsClean r.0
unfolding is_numbered
move-numbered_example = move-numbered (at 100) (to_step 2) wash_operation lit wash-IsClean refl
