-- ===== src/Operation.antt =====
-- class operation of PAC/common/operation_mngr.cpp: the state machine of an operation.
pub mod Mode
pub mod Defs
pub mod Steps
pub mod Machine
pub mod Clean
pub mod Quiet
pub mod Paused
pub mod Resume
