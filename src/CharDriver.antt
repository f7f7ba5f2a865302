-- ===== src/CharDriver.antt =====
-- Assignment5/Dutka_Gianfranco_Assignment_5/char_driver.c: a character device over a buffer in
-- kernel memory. Device has the state and what the kernel gives, Ops the file operations, Setup
-- the loading and unloading of the module, and Client and Menu
-- the programs that call it.
pub mod Device
pub mod Ops
pub mod Setup
pub mod Client
pub mod Menu
