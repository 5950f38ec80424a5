-- ===== src/Object.antt =====
-- class tech_object of PAC/common/tech_def.cpp, the owner of operations, with the automatic changes
-- of state of operation::evaluate (PAC/common/operation_mngr.cpp), which call it.
pub mod Bits
pub mod Defs
pub mod Auto
pub mod Evaluate
pub mod Marked
pub mod Calls
pub mod SetMode
pub mod Kept
pub mod Rounds
pub mod Unchecked
pub mod Idle
