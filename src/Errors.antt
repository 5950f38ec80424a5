-- ===== src/Errors.antt =====
-- The errors of devices and technological objects, and the siren and lights that show them
-- (common/PAC-driver/g_errors.cpp).
pub mod Alarm
pub mod Manager
pub mod Siren
pub mod Settled
pub mod Acknowledged
pub mod Flags
pub mod Sound
pub mod Critical
pub mod Ledger
