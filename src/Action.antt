-- ===== src/Action.antt =====
-- The actions of PAC/common/operation_mngr.cpp, by their kind, and their virtual methods.
pub mod Base
pub mod Simple
pub mod Links
pub mod Wash
pub mod Seat
pub mod Jump
pub mod Dispatch
pub mod Off
pub mod Turns
pub mod FirstMet
