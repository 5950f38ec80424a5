-- ===== src/Modbus.antt =====
-- The service of Modbus requests (PAC/common/modbus_serv.h, modbus_serv.cpp): how values and texts are
-- laid out in registers.
pub mod Packing
pub mod Texts
pub mod Packed
pub mod Reread
use ptusa_main.Common.{ℕ, ◌%◌, ◌==◌, if◌then◌else◌}

-- A buffer of bytes.
abbrev pub Buffer : Type 0
Buffer = ℕ → ℕ

-- `Buf[ at ] = value`, of a byte.
unfoldable pub put_byte : ℕ → ℕ → Buffer → Buffer
put_byte at value buf k = if k == at then value % 256 else buf k
