-- ===== src/ModeDriver/Device.antt =====
-- `struct e2_dev` of assignment6.c and the sections of its calls between `down(&sem1)` and
-- `up(&sem1)`. The results of `down_interruptible` are ignored by the code; Signals has the signals.
use advanced_systems_program.Prelude.{
  ℕ, ◌+◌, ◌-◌, ◌*◌, ◌/◌, ◌%◌, ◌^◌, Bool, true, false, not, ◌&&◌, ◌==◌, if◌then◌else◌, ltb,
}
use advanced_systems_program.Prelude.Int.{ℤ, negsuc}

pub data Mode : Type 0 where
  mode1 mode2 : Mode

-- The counts are ints in the source; here a lowered 0 stays 0.
pub record Device : Type 0 where
  pub mode : Mode
  pub count1 : ℕ
  pub count2 : ℕ
  pub sem1 : ℕ
  pub sem2 : ℕ

-- The device that `my_init` builds.
abbrev pub initial : Device
initial = record { mode = mode1; count1 = 0; count2 = 0; sem1 = 1; sem2 = 1 }

-- The first section of `e2_open`. In MODE1 `down(&sem2)` follows.
abbrev pub open_in : Mode → Device → Device
open_in mode1 d = record d { count1 = d.count1 + 1 }
open_in mode2 d = record d { count2 = d.count2 + 1 }

unfoldable pub e2_open_section : Device → Device
e2_open_section d = open_in d.mode d

unfoldable pub takes_sem2 : Mode → Bool
takes_sem2 mode1 = true
takes_sem2 mode2 = false

abbrev release_in : Mode → Device → Device
release_in mode1 d = record d { count1 = d.count1 - 1; sem2 = d.sem2 + 1 }
release_in mode2 d = record d { count2 = d.count2 - 1 }

-- `e2_release`. The wake-up at a count of 1 lets the waiting processes test their condition.
unfoldable pub e2_release : Device → Device
e2_release d = release_in d.mode d

-- A section of `e2_ioctl` ends with `up(&sem1)` and the call done; or goes to sleep; or goes on to
-- `down(&sem2)` with `sem1` held.
pub data Section : Type 0 where
  done : Device → Section
  wait : Section
  lock : Device → Section

-- The `while (count1 > 1)` of E2_IOCMODE2 at its test, and what follows it.
unfoldable pub switch_to_mode2 : Device → Section
switch_to_mode2 d =
    if ltb 1 d.count1
    then wait
    else done
        (record d { mode = mode2; count1 = d.count1 - 1; count2 = d.count2 + 1; sem2 = d.sem2 + 1 })

-- That of E2_IOCMODE1, up to `down(&sem2)`.
unfoldable pub switch_to_mode1 : Device → Section
switch_to_mode1 d =
    if ltb 1 d.count2
    then wait
    else lock
        (record d { mode = mode1; count2 = d.count2 - 1; count1 = d.count1 + 1; sem1 = d.sem1 - 1 })

unfoldable pub mode2_in : Mode → Device → Section
unfolding switch_to_mode2
mode2_in mode2 d = done d
mode2_in mode1 d = switch_to_mode2 d

unfoldable pub mode1_in : Mode → Device → Section
unfolding switch_to_mode1
mode1_in mode1 d = done d
mode1_in mode2 d = switch_to_mode1 d

-- `case E2_IOCMODE2` and `case E2_IOCMODE1` from their first `down(&sem1)`.
unfoldable pub ioctl_mode2 : Device → Section
unfolding mode2_in
ioctl_mode2 d = mode2_in d.mode d

unfoldable pub ioctl_mode1 : Device → Section
unfolding mode1_in
ioctl_mode1 d = mode1_in d.mode d

-- `down(&sem2); up(&sem1)` at the end of E2_IOCMODE1, where it finds `sem2` free.
unfoldable pub finish_mode1 : Device → Device
finish_mode1 d = record d { sem2 = d.sem2 - 1; sem1 = d.sem1 + 1 }

-- `_IOWR('Z', nr, int)`
abbrev pub iowr : ℕ → ℕ
iowr nr = 3 * 2 ^ 30 + 4 * 2 ^ 16 + b'Z' * 2 ^ 8 + nr

-- What `e2_ioctl` makes of its command before it takes the semaphore.
pub data Command : Type 0 where
  to_mode1 : Command
  to_mode2 : Command
  refused : ℤ → Command

unfoldable pub e2_command : ℕ → Command
e2_command cmd =
    if not (cmd / 2 ^ 8 % 2 ^ 8 == b'Z')
    then refused (negsuc 24)
    else if not (cmd % 2 ^ 8 == 1) && not (cmd % 2 ^ 8 == 2)
    then refused (negsuc 24)
    else if cmd == iowr 2
    then to_mode2
    else if cmd == iowr 1
    then to_mode1
    else refused (negsuc 0)
