-- ===== src/Simulator/Tests.antt =====
-- A run of the threads on a text of one byte, and descriptors on their way to the driver.
use advanced_systems_program.Prelude.{
  ◌≡◌, refl, arith, true, false, none, some, [], ◌∷◌, ◌++◌, replicate, codes, ◌>>=◌,
}
use advanced_systems_program.Prelude.Int.{pos, negsuc}
use advanced_systems_program.CLib.{Bytes}
use advanced_systems_program.Simulator.Startup.{
  Opened, Ends, init_shared_mem, driver_args, argv_of, goes_on, keyboard_init_fds, driver_main,
}
use advanced_systems_program.Simulator.Startup.Handover.{driver_main-driver_args}
use advanced_systems_program.Simulator.Interrupts.{
  faulted, receiving, System, start, lock, send, receive, Reach, here, next,
}
use advanced_systems_program.Simulator.Interrupts.Delivery.{driver-never_ends}
use advanced_systems_program.Simulator.ReadFile.{read_file, read_loop, close_buffer, filled}

abbrev letter : Bytes
letter = b'a' ∷ []

abbrev passed : System
passed = record (start true letter) { text = []; printed = letter }

pass_run : Reach 1 (start true letter) passed
pass_run =
    let r1 = next here (lock refl refl) in
    let r2 = next r1 (send refl refl (omega arith)) in next r2 (receive refl refl)

driver-never_ends_example :
    (passed.printed ++ (passed.pipe ++ passed.text) ≡ letter)
    × (passed.receiver ≡ receiving)
    × (passed.writers.driver ≡ true)
driver-never_ends_example = driver-never_ends 1 true letter pass_run

abbrev silent : System
silent = record (start false letter) {
  sender = faulted;
  keyboard_control = false;
  writers = record { simulator = true; keyboard = false; driver = true };
}

abbrev ends : Ends
ends = record {
  text = pos 7;
  int_read = pos 8;
  int_write = pos 9;
  ack_read = pos 10;
  ack_write = pos 11;
  ctrl_read = pos 12;
  ctrl_write = pos 13;
}

abbrev opened : Opened
opened = record { led_buffer = pos 3; led_mutex = pos 4; cond_var = pos 5; int_mutex = negsuc 0 }

driver_main-driver_args_example :
    (driver_args ends opened >>= λ args. driver_main (argv_of args))
    ≡ some (
        goes_on (record {
          int_fd = pos 8;
          ack_fd = pos 10;
          ctrl_fd = pos 13;
          int_mutex_fd = negsuc 0;
          led_buffer_fd = pos 4;
          led_mutex_fd = pos 0;
          cond_var_fd = pos 5;
        }))
driver_main-driver_args_example = driver_main-driver_args ends opened refl

-- Of the four descriptors the last may be -1.
last_unopened : init_shared_mem opened ≡ some opened
unfolding init_shared_mem
last_unopened = refl

-- Eight arguments pass the test of `init_fds` in keyboard.c, which reads a ninth.
eight_arguments : keyboard_init_fds (replicate 8 (codes "3")) ≡ none
unfolding keyboard_init_fds
eight_arguments = refl

two_bytes : read_file 3 (some (codes "ab")) ≡ filled (codes "ab")
unfolding read_file read_loop close_buffer
two_bytes = refl
