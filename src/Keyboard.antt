-- ===== src/Keyboard.antt =====
-- Assignment7/submission/keyboard_sim.c: a keyboard process and a driver process, each with two
-- threads, that exchange the bytes of a file, acknowledgements and the state of a caps lock light
-- over pipes and shared memory. A step is what a thread does between two points where another thread
-- may come in. `System` has the state and the steps, `Delivery` what reaches the screen,
-- `Release` the end of the threads, `History` the states of the caps lock, and `Report` what is printed
-- of them at the end.
pub mod System
pub mod Delivery
pub mod Release
pub mod Report
pub mod History
mod Tests
