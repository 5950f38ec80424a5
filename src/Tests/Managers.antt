-- ===== src/Tests/Managers.antt =====
-- The theorems on the table of devices at a concrete input.
use mathlib.Core.Option.{some_inj}
use ptusa_main.Common.{ℕ, zero, suc, ◌≡◌, refl, List, [], ◌∷◌, some, arith}
use ptusa_main.Manager.{
  Name, Entry, add_all, add_io_device, add_to_range, extend_range, empty_manager,
}
use ptusa_main.Manager.Strings.{Sign, strcmp}
use ptusa_main.Manager.Search.{Result, get_device_n}
use ptusa_main.Manager.Found.{Answers, IsByName, IsSorted, get_device_n-added, get_device_n-Answers}

-- "V1", "V2", "V5" and "M1".
abbrev valve_name : ℕ → Name
valve_name n = 86 ∷ n ∷ []

abbrev valve : ℕ → Entry
valve n = record { name = valve_name n; dev_type = some 0 }

abbrev motor : Entry
motor = record { name = 77 ∷ 49 ∷ []; dev_type = some 2 }

abbrev plant : List Entry
plant = motor ∷ valve 49 ∷ valve 50 ∷ valve 53 ∷ []

first_two : (a b : Entry) → valve 49 ≡ a → valve 50 ≡ b → strcmp a.name b.name ≡ Sign.before
unfolding strcmp
first_two a b g h = rw (← g, ← h) refl

outer_two : (a b : Entry) → valve 49 ≡ a → valve 53 ≡ b → strcmp a.name b.name ≡ Sign.before
unfolding strcmp
outer_two a b g h = rw (← g, ← h) refl

last_two : (a b : Entry) → valve 50 ≡ a → valve 53 ≡ b → strcmp a.name b.name ≡ Sign.before
unfolding strcmp
last_two a b g h = rw (← g, ← h) refl

in_order : IsSorted plant 1 4
in_order zero j a b l o h g k = absurd (omega (arith, l))
in_order (suc zero) zero a b l o h g k = absurd (omega (arith, o))
in_order (suc zero) (suc zero) a b l o h g k = absurd (omega (arith, o))
in_order (suc zero) (suc (suc zero)) a b l o h g k = first_two a b (some_inj.0 g) (some_inj.0 k)
in_order (suc zero) (suc (suc (suc zero))) a b l o h g k =
    outer_two a b (some_inj.0 g) (some_inj.0 k)
in_order (suc zero) (suc (suc (suc (suc j)))) a b l o h g k = absurd (omega (arith, h))
in_order (suc (suc zero)) zero a b l o h g k = absurd (omega (arith, o))
in_order (suc (suc zero)) (suc zero) a b l o h g k = absurd (omega (arith, o))
in_order (suc (suc zero)) (suc (suc zero)) a b l o h g k = absurd (omega (arith, o))
in_order (suc (suc zero)) (suc (suc (suc zero))) a b l o h g k =
    last_two a b (some_inj.0 g) (some_inj.0 k)
in_order (suc (suc zero)) (suc (suc (suc (suc j)))) a b l o h g k = absurd (omega (arith, h))
in_order (suc (suc (suc i))) j a b l o h g k = absurd (omega (arith, o, h))

plant-IsByName : IsByName plant ((add_all plant empty_manager).dev_types_ranges 0)
unfolding IsByName add_all add_io_device empty_manager add_to_range extend_range
plant-IsByName = in_order

get_device_n-added_example :
    get_device_n 3 (add_all plant empty_manager) 0 (valve_name 53) ≡ Result.found 3
get_device_n-added_example =
    get_device_n-added plant 3 3 0 (valve 53) refl refl (omega arith) plant-IsByName (omega arith)

get_device_n-Answers_example :
    Answers plant (valve_name 51) (get_device_n 3 (add_all plant empty_manager) 0 (valve_name 51))
get_device_n-Answers_example = get_device_n-Answers plant 3 0 (valve_name 51) (omega arith)
