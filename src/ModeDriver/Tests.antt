-- ===== src/ModeDriver/Tests.antt =====
-- Runs of the processes on the device, and the theorems at their ends.
use advanced_systems_program.Prelude.{ℕ, ◌<◌, ◌≤◌, ◌≡◌, refl, arith, true, false}
use advanced_systems_program.CharDriver.Device.{Kernel}
use advanced_systems_program.ModeDriver.Device.{
  mode1, initial, e2_open_section, takes_sem2, ioctl_mode2, switch_to_mode2, mode2_in,
}
use advanced_systems_program.ModeDriver.System.{
  System, start, open_waits, open_enters, mode2_waits, Reach, here, next,
}
use advanced_systems_program.ModeDriver.Invariant.{holders, exclusive_in_mode1, Counted}
use advanced_systems_program.ModeDriver.Signals.{
  SignalReach, step, open_interrupted, counts_exact-signalled, mode1-crowded,
}
use advanced_systems_program.ModeDriver.Signals
use advanced_systems_program.ModeDriver.Setup.{Granted}
use advanced_systems_program.ModeDriver.Deadlock.{mode2-deadlock}

-- `sem1` as most steps find it.
free : 0 < 1
free = omega arith

-- The processes in MODE1, with no switch under way and `sem1` free.
abbrev in_mode1 : (count1 sem2 opening opened waiting1 : ℕ) → System
in_mode1 count1 sem2 opening opened waiting1 = record start {
  dev = record initial { count1 = count1; sem2 = sem2 };
  opening = opening;
  opened = opened;
  waiting1 = waiting1;
}

-- One process opens the device, another waits to, and the first asks for MODE2.
one_opening : Reach start (in_mode1 1 1 1 0 0)
unfolding e2_open_section takes_sem2
one_opening = next here (open_waits free refl)

one_inside : Reach start (in_mode1 1 0 0 1 0)
one_inside = next one_opening (open_enters (ground arith) (ground arith))

one_behind : Reach start (in_mode1 2 0 1 1 0)
unfolding e2_open_section takes_sem2
one_behind = next one_inside (open_waits free refl)

asks_mode2 : Reach start (in_mode1 2 0 1 0 1)
unfolding ioctl_mode2 mode2_in switch_to_mode2
asks_mode2 = next one_behind (mode2_waits free (ground arith) refl)

-- The state after another `e2_open` has begun.
two_wait : Reach (in_mode1 2 0 1 0 1) (in_mode1 3 0 2 0 1)
unfolding e2_open_section takes_sem2
two_wait = next here (open_waits free refl)

mode2-deadlock_example :
    let t = in_mode1 3 0 2 0 1 in (t.waiting1 ≡ 1) × (t.woken1 ≡ 0) × (t.opened ≡ 0)
mode2-deadlock_example = mode2-deadlock asks_mode2 (ground arith) (ground arith) two_wait

exclusive_in_mode1_example : holders (in_mode1 2 0 1 1 0) ≤ 1
exclusive_in_mode1_example = exclusive_in_mode1 one_behind refl refl

-- A signal ends the wait of the second process.
two_inside : SignalReach start (in_mode1 2 0 0 2 0)
unfolding e2_open_section takes_sem2
two_inside =
    let r1 = Signals.next Signals.here (step (open_waits free refl)) in
    let r2 = Signals.next r1 (step (open_enters (ground arith) (ground arith))) in
    let r3 = Signals.next r2 (step (open_waits free refl)) in
    Signals.next r3 (open_interrupted (ground arith) refl)

counts_exact-signalled_example : Counted mode1 (in_mode1 2 0 0 2 0)
counts_exact-signalled_example = counts_exact-signalled two_inside

mode1-crowded_example :
    (t : System) × SignalReach start t × (t.dev.mode ≡ mode1) × (t.locking ≡ 0) × (holders t ≡ 3)
mode1-crowded_example = mode1-crowded 2

abbrev quiet : Kernel
quiet = record { signalled = false; has_memory = true; uncopied = 0; accessible = true }

abbrev cdev_refused : Granted
cdev_refused = record { region_error = 0; has_dev = true; has_ramdisk = true; cdev_error = 12 }
