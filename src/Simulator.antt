-- ===== src/Simulator.antt =====
-- Assignment7/simulator.c, keyboard.c and driver_simulator.c: a keyboard and its driver as two
-- programs that simulator.c starts. Startup has the descriptors that it opens and hands over as
-- arguments, Interrupts the threads that pass the text on, and ReadFile the function of keyboard.c
-- that reads a file.
pub mod Interrupts
pub mod ReadFile
pub mod Startup
mod Tests
