-- ===== src/Params/Store.antt =====
-- class params_manager (PAC/common/param_ex.cpp). The check sum, the exchange with Lua and the calls
-- that set the defaults of other components are left out; these are given with the call.
use ptusa_main.Common.{ℕ, ◌+◌, ◌%◌, Option, none, some, ltb, ◌==◌, if◌then◌else◌}
use ptusa_main.Plant.{word}
use ptusa_main.Params.{Bytes, ParamsManager, c_total_params_size, c_sys_mem_size, c_last_idx_offset}
use ptusa_main.Params.Memory.{
  read_range, write_range, get_memory_block, MemoryType, new_memory_manager, to_bytes, of_bytes,
}

abbrev pub no_bytes : Bytes
no_bytes k = 0

-- The constructor, which takes its blocks of both memories.
unfoldable pub new_params_manager : Bytes → Bytes → ParamsManager
new_params_manager eeprom nvram =
    let crc = get_memory_block MemoryType.mt_nvram c_sys_mem_size new_memory_manager in
    record {
      params = no_bytes;
      last_idx = 0;
      crc_mem = crc.1;
      params_mem = (get_memory_block MemoryType.mt_eeprom c_total_params_size crc.0).1;
      eeprom = eeprom;
      nvram = nvram;
    }

unfoldable pub init : ParamsManager → ParamsManager
init m = record m { params = read_range m.params_mem m.eeprom c_total_params_size 0 no_bytes }

unfoldable pub save : ℕ → ℕ → ParamsManager → ParamsManager
save start_pos count m =
    let size = if count == 0 then c_total_params_size else count in
    record m {
      eeprom = write_range m.params_mem (λ k. m.params (start_pos + k)) size start_pos m.eeprom;
    }

-- With the start of the block, none for a null pointer.
unfoldable pub get_params_data : ℕ → ParamsManager → ParamsManager × Option ℕ
get_params_data size m =
    if ltb m.params_mem.size ((m.last_idx + size) % word)
    then (m, none)
    else (record m { last_idx = (m.last_idx + size) % word }, some m.last_idx)

unfoldable pub reset_params_size : ParamsManager → ParamsManager
reset_params_size m = record m {
  nvram = write_range m.crc_mem no_bytes 4 c_last_idx_offset m.nvram;
}

-- The number of bytes in use that the other memory keeps.
unfoldable pub read_last_idx : ParamsManager → ℕ
read_last_idx m = of_bytes (read_range m.crc_mem m.nvram 4 c_last_idx_offset no_bytes)

-- The assignment `par[ 0 ][ P_IS_RESET_PARAMS ] = 0` is of the first word.
unfoldable pub clear_reset : Bytes → Bytes
clear_reset params k = if ltb k 4 then 0 else params k

unfoldable pub reset_to_default : (Bytes → Bytes) → ParamsManager → ParamsManager
reset_to_default set_defaults m =
    save 0 0 (record m { params = clear_reset (set_defaults no_bytes) })

unfoldable pub write_last_idx : ParamsManager → ParamsManager
write_last_idx m = record m {
  nvram = write_range m.crc_mem (to_bytes m.last_idx) 4 c_last_idx_offset m.nvram;
}

unfoldable pub final_init : (Bytes → Bytes) → ParamsManager → ParamsManager
final_init set_defaults m =
    if read_last_idx m == m.last_idx then m else reset_to_default set_defaults (write_last_idx m)
