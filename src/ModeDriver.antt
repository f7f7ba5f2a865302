-- ===== src/ModeDriver.antt =====
-- Assignment6/assignment6.c: a device with two modes. In MODE1 one process at a time has it open,
-- behind `sem2`; in MODE2 any number. Device has the struct and the parts of the calls that run
-- under `sem1`, System the interleaving of the processes, Invariant and Deadlock what holds of it,
-- Signals the steps that signals add, Cases the programs case1.cpp to case4.cpp on it, Transfer the
-- reading and writing, and Setup the loading and unloading of the module.
pub mod Device
pub mod Cases
pub mod System
pub mod Invariant
pub mod Deadlock
pub mod Signals
pub mod Transfer
pub mod Setup
mod Tests
