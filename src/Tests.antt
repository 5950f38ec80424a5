-- ===== src/Tests.antt =====
-- The theorems at concrete inputs, on a plant of plain devices.
mod Plain
mod Actions
mod Operations
mod Steps
mod Errors
mod Objects
mod Valves
mod Critical
mod Counters
mod Managers
mod Recipes
mod Parameters
mod Registers
mod AsValves
