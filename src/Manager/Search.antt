-- ===== src/Manager/Search.antt =====
-- device_manager::get_device_n and the getters on it (PAC/common/device/manager.cpp).
use ptusa_main.Common.{
  ℕ, zero, suc, ◌+◌, ◌-◌, ◌/◌, List, Option, none, some, get_elem?, length, ltb, leb, if◌then◌else◌,
}
use ptusa_main.Manager.{Name, Entry, TypeRange, DeviceManager, c_device_type_cnt}
use ptusa_main.Manager.Strings.{Sign, strcmp}

-- How a search ends: with a number, with -1, with a read past the table, or, on fuel, not at all.
pub data Result : Type 0 where
  found : ℕ → Result
  absent out_of_range out_of_fuel : Result

-- The comparison of `dev_name` with the device that is read.
unfoldable pub probe : Name → Option Entry → Option Sign
probe dev_name none = none
probe dev_name (some e) = some (strcmp dev_name e.name)

-- `while ( l <= u )`, with `hi` for `u + 1`, which is not negative.
unfoldable pub search_loop : List Entry → Name → ℕ → ℕ → ℕ → Result
search_loop devices dev_name zero l hi = if leb hi l then absent else out_of_fuel
search_loop devices dev_name (suc fuel) l hi =
    if leb hi l
    then absent
    else (let i = (l + (hi - 1)) / 2 in
        elim (probe dev_name (get_elem? devices i)) [
          | none ↦ out_of_range
          | some Sign.same ↦ found i
          | some Sign.after ↦ search_loop devices dev_name fuel (i + 1) hi
          | some Sign.before ↦ search_loop devices dev_name fuel l i
        ])

unfoldable pub search_range : ℕ → List Entry → Name → Option TypeRange → Result
search_range fuel devices dev_name none = absent
search_range fuel devices dev_name (some r) =
    search_loop devices dev_name fuel r.start_pos (r.end_pos + 1)

unfoldable pub get_device_n : ℕ → DeviceManager → ℕ → Name → Result
get_device_n fuel m dev_type dev_name =
    if ltb dev_type c_device_type_cnt
    then search_range fuel m.project_devices dev_name (m.dev_types_ranges dev_type)
    else absent

-- The loop of get_device_n( dev_name ) over `left` types from `dev_type` on.
unfoldable pub search_types : ℕ → DeviceManager → Name → ℕ → ℕ → Result
search_types fuel m dev_name zero dev_type = absent
search_types fuel m dev_name (suc left) dev_type =
    let rest = search_types fuel m dev_name left (dev_type + 1) in
    elim (get_device_n fuel m dev_type dev_name) [
      | found i ↦ found i
      | absent ↦ rest
      | out_of_range ↦ out_of_range
      | out_of_fuel ↦ out_of_fuel
    ]

unfoldable pub get_device_n_any : ℕ → DeviceManager → Name → Result
get_device_n_any fuel m dev_name = search_types fuel m dev_name c_device_type_cnt 0

-- The number that `get_device` gives the device of, none for the stub.
unfoldable pub device_of : Result → Option ℕ
device_of (found i) = some i
device_of _ = none

unfoldable pub get_device : ℕ → DeviceManager → ℕ → Name → Option ℕ
get_device fuel m dev_type dev_name = device_of (get_device_n fuel m dev_type dev_name)

unfoldable pub get_device_any : ℕ → DeviceManager → Name → Option ℕ
get_device_any fuel m dev_name = device_of (get_device_n_any fuel m dev_name)

-- get_device( serial_dev_n ), none for the stub.
unfoldable pub get_device_serial : DeviceManager → ℕ → Option ℕ
get_device_serial m serial_dev_n =
    if ltb serial_dev_n (length m.project_devices) then some serial_dev_n else none
