-- ===== src/Tests/Critical.antt =====
-- The theorem on the critical errors at a concrete input.
use ptusa_main.Common.{ℕ, List, [], ◌∷◌}
use ptusa_main.Errors.Critical.{CriticalError, make_error, initial}
use ptusa_main.Errors.Ledger.{
  Call, call_set, call_reset, nothing, run, note_all, Refines, run-Refines, initial-Refines,
}

-- An error of bus node 1 that comes twice and goes once, and one of node 2.
abbrev node : ℕ → CriticalError
node n = make_error 1 1 n

abbrev calls : List Call
calls = call_set (node 1) ∷ call_set (node 1) ∷ call_set (node 2) ∷ call_reset (node 1) ∷ []

run-Refines_example : Refines (run calls initial) (note_all calls nothing)
run-Refines_example = run-Refines calls initial nothing initial-Refines
