-- ===== src/Params/Memory.antt =====
-- class memory_range and NV_memory_manager::get_memory_block (PAC/common/sys/base_mem.cpp), and the
-- layout of a word of 32 bits in the memory.
use ptusa_main.Common.{
  ℕ, ◌+◌, ◌-◌, ◌*◌, ◌/◌, ◌%◌, Bool, true, false, ◌&&◌, ltb, leb, ◌==◌, if◌then◌else◌,
}
use ptusa_main.Plant.{word}
use ptusa_main.Params.{Bytes, MemoryRange, MemoryManager}

-- `count` bytes of `source` from the address `start` on.
unfoldable pub copy_bytes : ℕ → ℕ → Bytes → Bytes → Bytes
copy_bytes start count source memory k =
    if leb start k && ltb k (start + count) then source (k - start) else memory k

-- check_params gives 0.
unfoldable pub is_in_range : MemoryRange → ℕ → ℕ → Bool
is_in_range r count start_pos = leb ((start_pos + count) % word) r.size

-- The buffer after `read`: as it was where the range has no memory or is exceeded.
unfoldable pub read_range : MemoryRange → Bytes → ℕ → ℕ → Bytes → Bytes
read_range r memory count start_pos buffer =
    if r.has_memory && is_in_range r count start_pos
    then copy_bytes 0 count (λ k. memory (r.start_pos + start_pos + k)) buffer
    else buffer

-- The memory after `write`.
unfoldable pub write_range : MemoryRange → Bytes → ℕ → ℕ → Bytes → Bytes
write_range r buffer count start_pos memory =
    if r.has_memory && is_in_range r count start_pos
    then copy_bytes (r.start_pos + start_pos) count buffer memory
    else memory

-- The range that stands for an error.
abbrev pub no_range : MemoryRange
no_range = record { has_memory = false; start_pos = 0; size = 0 }

-- NVRAM_SIZE and EEPROM_SIZE.
abbrev pub nvram_size : ℕ
nvram_size = 32

abbrev pub eeprom_size : ℕ
eeprom_size = 32768

unfoldable pub new_memory_manager : MemoryManager
new_memory_manager = record {
  nvram_end_pos = nvram_size - 1;
  eeprom_end_pos = eeprom_size - 1;
  last_nvram_pos = 0;
  last_eeprom_pos = nvram_size;
}

-- MEMORY_TYPE
pub data MemoryType : Type 0 where
  mt_nvram mt_eeprom : MemoryType

unfoldable pub get_memory_block : MemoryType → ℕ → MemoryManager → MemoryManager × MemoryRange
get_memory_block mt_nvram count m =
    if ltb m.nvram_end_pos ((m.last_nvram_pos + count) % word) then (m, no_range) else (
      record m { last_nvram_pos = (m.last_nvram_pos + count) % word },
      record { has_memory = true; start_pos = m.last_nvram_pos; size = count },
    )
get_memory_block mt_eeprom count m =
    if ltb m.eeprom_end_pos ((m.last_eeprom_pos + count) % word) then (m, no_range) else (
      record m { last_eeprom_pos = (m.last_eeprom_pos + count) % word },
      record { has_memory = true; start_pos = m.last_eeprom_pos; size = count },
    )

-- A word in the memory, its lowest byte first.
unfoldable pub to_bytes : ℕ → Bytes
to_bytes v k =
    if k == 0
    then v % 256
    else if k == 1
    then v / 256 % 256
    else if k == 2
    then v / 65536 % 256
    else if k == 3
    then v / 16777216 % 256
    else 0

unfoldable pub of_bytes : Bytes → ℕ
of_bytes b = b 0 + 256 * b 1 + 65536 * b 2 + 16777216 * b 3
