-- ===== src/State.antt =====
-- class operation_state of PAC/common/operation_mngr.cpp: the steps of one state of an operation.
pub mod Defs
pub mod Extra
pub mod Evaluate
pub mod Checks
pub mod Activity
pub mod Tracked
pub mod Rounds
pub mod Limits
