-- ===== src/Params/Saved.antt =====
-- The arrays of parameters, class saved_params on u_int_4 (PAC/common/param_ex.h), whose values lie in
-- the array of the manager. An array that gets no block has values of its own, and `start_pos` without
-- a value: it is left out.
use ptusa_main.Common.{ℕ, ◌+◌, ◌-◌, ◌*◌, Bool, ◌&&◌, Option, none, some, ltb, leb, if◌then◌else◌}
use ptusa_main.Params.{Bytes, ParamsManager, value_size}
use ptusa_main.Params.Memory.{copy_bytes, to_bytes, of_bytes}
use ptusa_main.Params.Store.{save, get_params_data, no_bytes}

pub record SavedParams : Type 0 where
  pub start_pos : ℕ
  pub count : ℕ

unfoldable pub saved_params_of : ℕ → ParamsManager × Option ℕ → ParamsManager × Option SavedParams
saved_params_of count (m, none) = (m, none)
saved_params_of count (m, some start_pos) =
    (m, some (record { start_pos = start_pos; count = count }))

unfoldable pub new_saved_params : ℕ → ParamsManager → ParamsManager × Option SavedParams
new_saved_params count m = saved_params_of count (get_params_data (count * value_size) m)

-- `values[ i ]`
unfoldable pub value_at : SavedParams → ℕ → Bytes → ℕ
value_at p i params = of_bytes (λ k. params (p.start_pos + i * value_size + k))

unfoldable pub set_value_at : SavedParams → ℕ → ℕ → Bytes → Bytes
set_value_at p i v params = copy_bytes (p.start_pos + i * value_size) value_size (to_bytes v) params

-- `index <= count && index > 0`
unfoldable pub is_index : SavedParams → ℕ → Bool
is_index p index = leb index p.count && ltb 0 index

-- operator[], read; `stub` is what the value behind an index out of range holds.
unfoldable pub get : SavedParams → ℕ → ℕ → ParamsManager → ℕ
get p stub index m = if is_index p index then value_at p (index - 1) m.params else stub

-- save( idx, value )
unfoldable pub save_value : SavedParams → ℕ → ℕ → ParamsManager → ParamsManager
save_value p idx value m =
    if is_index p idx
    then save (p.start_pos + (idx - 1) * value_size) value_size
        (record m { params = set_value_at p (idx - 1) value m.params })
    else m

unfoldable pub save_all : SavedParams → ParamsManager → ParamsManager
save_all p m = save p.start_pos (p.count * value_size) m

-- reset_to_0, whose loop is over the bytes of the values.
unfoldable pub reset_to_0 : SavedParams → ParamsManager → ParamsManager
reset_to_0 p m =
    save p.start_pos (value_size * p.count)
      (record m { params = copy_bytes p.start_pos (p.count * value_size) no_bytes m.params })
