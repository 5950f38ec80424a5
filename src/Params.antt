-- ===== src/Params.antt =====
-- The parameters that are kept over a restart: the blocks of the memory that does not lose its data
-- (PAC/common/sys/base_mem.h, base_mem.cpp), the manager of the parameters and their arrays
-- (PAC/common/param_ex.h, param_ex.cpp).
pub mod Memory
pub mod Store
pub mod Saved
pub mod Blocks
pub mod Restart
pub mod Sizes
use ptusa_main.Common.{ℕ, ◌*◌, Bool}

-- What an address holds, a byte.
abbrev pub Bytes : Type 0
Bytes = ℕ → ℕ

-- memory_range; `has_memory` is false for the range that stands for an error.
pub record MemoryRange : Type 0 where
  pub has_memory : Bool
  pub start_pos : ℕ
  pub size : ℕ

-- NV_memory_manager: the ends of the available parts of both memories, and the first free positions.
pub record MemoryManager : Type 0 where
  pub nvram_end_pos : ℕ
  pub eeprom_end_pos : ℕ
  pub last_nvram_pos : ℕ
  pub last_eeprom_pos : ℕ

-- params_manager, with the two memories that it writes to.
pub record ParamsManager : Type 0 where
  pub params : Bytes
  pub last_idx : ℕ
  pub params_mem : MemoryRange
  pub crc_mem : MemoryRange
  pub eeprom : Bytes
  pub nvram : Bytes

abbrev pub c_total_params_size : ℕ
c_total_params_size = 1024 * 30

abbrev pub c_sys_mem_size : ℕ
c_sys_mem_size = 10

abbrev pub c_last_idx_offset : ℕ
c_last_idx_offset = 4

-- sizeof( u_int_4 )
abbrev pub value_size : ℕ
value_size = 4
