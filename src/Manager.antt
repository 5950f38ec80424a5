-- ===== src/Manager.antt =====
-- The table of devices (PAC/common/device/manager.h, manager.cpp): the devices in the order in which
-- they are added, and for each type the range of their numbers.
pub mod Strings
pub mod Search
pub mod Filled
pub mod Found
use ptusa_main.Common.{
  ℕ, ◌+◌, Bool, true, false, List, [], ◌∷◌, ◌++◌, Option, none, some, length, ◌&&◌, ltb, ◌==◌,
  if◌then◌else◌,
}

-- The characters of a C string before its final 0.
abbrev pub Name : Type 0
Name = List ℕ

-- A device as the table sees it. `dev_type` is the number of `device::DEVICE_TYPE`, none for DT_NONE.
pub record Entry : Type 0 where
  pub name : Name
  pub dev_type : Option ℕ

pub record TypeRange : Type 0 where
  pub start_pos : ℕ
  pub end_pos : ℕ

-- `dev_types_ranges[ t ]`, none for { -1, -1 }, where `is_first_device[ t ]` is 0.
pub record DeviceManager : Type 0 where
  pub project_devices : List Entry
  pub dev_types_ranges : ℕ → Option TypeRange

-- device::C_DEVICE_TYPE_CNT, the number of types from DT_V to DT_G.
abbrev pub c_device_type_cnt : ℕ
c_device_type_cnt = 26

-- The table of a new manager, and that after `clear_io_devices`.
unfoldable pub empty_manager : DeviceManager
empty_manager = record { project_devices = []; dev_types_ranges = λ t. none }

-- The range of a type once the device with the number n is of that type.
unfoldable pub extend_range : ℕ → Option TypeRange → TypeRange
extend_range n none = record { start_pos = n; end_pos = n }
extend_range n (some r) = record r { end_pos = n }

unfoldable pub add_to_range : Option ℕ → ℕ → (ℕ → Option TypeRange) → ℕ → Option TypeRange
add_to_range none n ranges t = ranges t
add_to_range (some dev_type) n ranges t =
    if t == dev_type && ltb dev_type c_device_type_cnt
    then some (extend_range n (ranges t))
    else ranges t

-- The end of add_io_device, for a device that is made.
unfoldable pub add_io_device : Entry → DeviceManager → DeviceManager
add_io_device e m = record {
  project_devices = m.project_devices ++ e ∷ [];
  dev_types_ranges = add_to_range e.dev_type (length m.project_devices) m.dev_types_ranges;
}

unfoldable pub add_all : List Entry → DeviceManager → DeviceManager
add_all [] m = m
add_all (e ∷ es) m = add_all es (add_io_device e m)
