-- ===== src/Coupler.antt =====
-- The reading of the inputs of a Phoenix coupler by Modbus (read_inputs and read_input_registers of
-- PAC/common/uni_bus_coupler_io.cpp).
pub mod Reading
pub mod Chunks
pub mod Ended
pub mod Polled
use ptusa_main.Common.{ℕ}

-- What the loop changes of an io_node: the analog inputs, as unsigned words of 16 bits, and the
-- discrete ones. `ai_types` is the type of the module behind each register.
pub record Inputs : Type 0 where
  pub ai : ℕ → ℕ
  pub di : ℕ → ℕ

-- MAX_MODBUS_REGISTERS_PER_QUERY
abbrev pub max_registers : ℕ
max_registers = 123

-- PHOENIX_INPUTREGISTERS_STARTADDRESS
abbrev pub start_address : ℕ
start_address = 8000

-- A buffer of bytes.
abbrev pub Buffer : Type 0
Buffer = ℕ → ℕ
