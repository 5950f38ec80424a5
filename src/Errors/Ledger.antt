-- ===== src/Errors/Ledger.antt =====
-- The critical errors as a set with a count of its changes (PAC/common/PAC_err.cpp).
use ptusa_main.Common.{
  ℕ, ◌≡◌, refl, ap, inl, inr, Bool, true, false, ◌&&◌, ◌||◌, not, List, [], ◌∷◌, ◌++◌, ◌+◌, ◌%◌,
  ◌^◌, if◌then◌else◌, arith, Bool-cases,
}
use ptusa_main.Errors.Critical.{
  CriticalError, Critical, initial, is_same, find, erase_first, next_id, set_global_error,
  reset_global_error,
}

pub data Call : Type 0 where
  call_set : CriticalError → Call
  call_reset : CriticalError → Call

unfoldable pub step : Call → Critical → Critical
step (call_set y) s = set_global_error y s
step (call_reset y) s = reset_global_error y s

unfoldable pub run : List Call → Critical → Critical
run [] s = s
run (x ∷ xs) s = run xs (step x s)

-- The abstract view: which errors there are, and how often that changed.
pub record Ledger : Type 0 where
  pub has : CriticalError → Bool
  pub changes : ℕ

abbrev pub nothing : Ledger
nothing = record { has = λ y. false; changes = 0 }

abbrev pub note : Call → Ledger → Ledger
note (call_set y) a = record {
  has = λ x. is_same y x || a.has x;
  changes = if a.has y then a.changes else a.changes + 1;
}
note (call_reset y) a = record {
  has = λ x. not (is_same y x) && a.has x;
  changes = if a.has y then a.changes + 1 else a.changes;
}

unfoldable pub note_all : List Call → Ledger → Ledger
note_all [] a = a
note_all (x ∷ xs) a = note_all xs (note x a)

-- No error stands twice in the list.
unfoldable pub is_distinct : List CriticalError → Bool
is_distinct [] = true
is_distinct (x ∷ xs) = not (find xs x) && is_distinct xs

find_append :
    (xs : List CriticalError) (y k : CriticalError)
    → find (xs ++ y ∷ []) k ≡ (find xs k || is_same y k)
unfolding find
find_append [] y k = ground arith
find_append (x ∷ xs) y k = ground (arith, find_append xs y k)

distinct_append :
    (xs : List CriticalError) (y : CriticalError)
    → is_distinct xs ≡ true
    → find xs y ≡ false
    → is_distinct (xs ++ y ∷ []) ≡ true
unfolding is_distinct find
distinct_append [] y d h = refl
distinct_append (x ∷ xs) y d h = ground (arith, d, h, distinct_append xs y, find_append xs y x)

-- What holds of the list and the id with respect to the abstract view.
pub record Refines (s : Critical) (a : Ledger) : Type 0 where
  pub members : (y : CriticalError) → find s.errors y ≡ a.has y
  pub distinct : is_distinct s.errors ≡ true
  pub id : s.errors_id ≡ a.changes % 2 ^ 16

same_eq : (x y : CriticalError) → is_same x y ≡ true → x ≡ y
same_eq x y h = ground arith

find_same :
    (xs : List CriticalError) (x y : CriticalError) → is_same x y ≡ true → find xs x ≡ find xs y
find_same xs x y h = ap (find xs) (same_eq x y h)

find_erase :
    (xs : List CriticalError) (y k : CriticalError)
    → is_distinct xs ≡ true
    → find (erase_first xs y) k ≡ (not (is_same y k) && find xs k)
unfolding find erase_first is_distinct
find_erase [] y k d = ground arith
find_erase (x ∷ xs) y k d = elim (Bool-cases (is_same y k)) [
  | inl same ↦ ground (arith, d, same, find_erase xs y k, find_same xs x k)
  | inr other ↦ ground (arith, d, other, find_erase xs y k)
]

distinct_erase :
    (xs : List CriticalError) (y : CriticalError)
    → is_distinct xs ≡ true
    → is_distinct (erase_first xs y) ≡ true
unfolding is_distinct erase_first
distinct_erase [] y d = refl
distinct_erase (x ∷ xs) y d = ground (arith, d, distinct_erase xs y, find_erase xs y x)

next_changes : (n : ℕ) → next_id (n % 2 ^ 16) ≡ (n + 1) % 2 ^ 16
next_changes n = omega arith

step-Refines : (x : Call) (s : Critical) (a : Ledger) → Refines s a → Refines (step x s) (note x a)
unfolding step set_global_error reset_global_error
step-Refines (call_set y) s a r = record {
  members = λ k. ground (arith, r.members y, r.members k, find_append s.errors y k);
  distinct = ground (arith, r.distinct, distinct_append s.errors y);
  id = ground (arith, r.id, r.members y, next_changes a.changes);
}
step-Refines (call_reset y) s a r = record {
  members = λ k. ground (
    arith,
    r.members y,
    r.members k,
    r.distinct,
    find_erase s.errors y k,
    find_same s.errors y k,
  );
  distinct = ground (arith, r.distinct, distinct_erase s.errors y);
  id = ground (arith, r.id, r.members y, next_changes a.changes);
}

-- After any sequence of set_global_error and reset_global_error the list of critical errors has no
-- error twice, holds those of the abstract set that the calls describe, and errors_id counts the
-- changes of that set modulo 2 ^ 16, where this held before.
pub run-Refines :
    (xs : List Call) (s : Critical) (a : Ledger) → Refines s a → Refines (run xs s) (note_all xs a)
unfolding run note_all
run-Refines [] s a r = r
run-Refines (x ∷ xs) s a r = run-Refines xs (step x s) (note x a) (step-Refines x s a r)

pub initial-Refines : Refines initial nothing
unfolding initial find is_distinct
initial-Refines = record { members = λ y. refl; distinct = refl; id = refl }
