-- ===== src/ModeDriver/System.antt =====
-- The processes that use the device of assignment6.c, counted by where they stand. A step is a
-- section under `sem1`, a `down(&sem2)` that finds it free, or a test in `wait_event`.
use advanced_systems_program.Prelude.{ℕ, ◌+◌, ◌-◌, ◌<◌, ◌≡◌, true, false}
use advanced_systems_program.ModeDriver.Device.{
  Device, initial, e2_open_section, takes_sem2, e2_release, done, wait, lock, ioctl_mode1,
  ioctl_mode2, switch_to_mode1, switch_to_mode2, finish_mode1,
}

pub record System : Type 0 where
  pub dev : Device
  pub opening : ℕ  -- in `e2_open`, before `down(&sem2)`
  pub opened : ℕ  -- with the device open, in no call
  pub waiting1 : ℕ  -- in E2_IOCMODE2, asleep on `queue1`
  pub woken1 : ℕ  -- the same, before the `down(&sem1)` that follows
  pub waiting2 : ℕ  -- in E2_IOCMODE1, asleep on `queue2`
  pub woken2 : ℕ
  pub locking : ℕ  -- in E2_IOCMODE1, before `down(&sem2)`, with `sem1` held

abbrev pub start : System
start = record {
  dev = initial;
  opening = 0;
  opened = 0;
  waiting1 = 0;
  woken1 = 0;
  waiting2 = 0;
  woken2 = 0;
  locking = 0;
}

pub data Step (s : System) : System → Type 0 where
  open_waits :
      0 < s.dev.sem1
      → takes_sem2 s.dev.mode ≡ true
      → Step s (record s { dev = e2_open_section s.dev; opening = s.opening + 1 })
  open_returns :
      0 < s.dev.sem1
      → takes_sem2 s.dev.mode ≡ false
      → Step s (record s { dev = e2_open_section s.dev; opened = s.opened + 1 })
  open_enters :
      0 < s.opening
      → 0 < s.dev.sem2
      → Step s (record s {
        dev = record (s.dev) { sem2 = s.dev.sem2 - 1 };
        opening = s.opening - 1;
        opened = s.opened + 1;
      })
  release :
      0 < s.dev.sem1
      → 0 < s.opened
      → Step s (record s { dev = e2_release s.dev; opened = s.opened - 1 })
  mode2_done :
      {d : Device}
      → 0 < s.dev.sem1
      → 0 < s.opened
      → ioctl_mode2 s.dev ≡ done d
      → Step s (record s { dev = d })
  mode2_waits :
      0 < s.dev.sem1
      → 0 < s.opened
      → ioctl_mode2 s.dev ≡ wait
      → Step s (record s { opened = s.opened - 1; waiting1 = s.waiting1 + 1 })
  mode2_wakes :
      0 < s.waiting1
      → s.dev.count1 ≡ 1
      → Step s (record s { waiting1 = s.waiting1 - 1; woken1 = s.woken1 + 1 })
  mode2_switches :
      {d : Device}
      → 0 < s.dev.sem1
      → 0 < s.woken1
      → switch_to_mode2 s.dev ≡ done d
      → Step s (record s { dev = d; woken1 = s.woken1 - 1; opened = s.opened + 1 })
  mode2_again :
      0 < s.dev.sem1
      → 0 < s.woken1
      → switch_to_mode2 s.dev ≡ wait
      → Step s (record s { woken1 = s.woken1 - 1; waiting1 = s.waiting1 + 1 })
  mode1_done :
      {d : Device}
      → 0 < s.dev.sem1
      → 0 < s.opened
      → ioctl_mode1 s.dev ≡ done d
      → Step s (record s { dev = d })
  mode1_waits :
      0 < s.dev.sem1
      → 0 < s.opened
      → ioctl_mode1 s.dev ≡ wait
      → Step s (record s { opened = s.opened - 1; waiting2 = s.waiting2 + 1 })
  mode1_locks :
      {d : Device}
      → 0 < s.dev.sem1
      → 0 < s.opened
      → ioctl_mode1 s.dev ≡ lock d
      → Step s (record s { dev = d; opened = s.opened - 1; locking = s.locking + 1 })
  mode1_wakes :
      0 < s.waiting2
      → s.dev.count2 ≡ 1
      → Step s (record s { waiting2 = s.waiting2 - 1; woken2 = s.woken2 + 1 })
  mode1_relocks :
      {d : Device}
      → 0 < s.dev.sem1
      → 0 < s.woken2
      → switch_to_mode1 s.dev ≡ lock d
      → Step s (record s { dev = d; woken2 = s.woken2 - 1; locking = s.locking + 1 })
  mode1_again :
      0 < s.dev.sem1
      → 0 < s.woken2
      → switch_to_mode1 s.dev ≡ wait
      → Step s (record s { woken2 = s.woken2 - 1; waiting2 = s.waiting2 + 1 })
  mode1_finishes :
      0 < s.locking
      → 0 < s.dev.sem2
      → Step s
          (record s { dev = finish_mode1 s.dev; locking = s.locking - 1; opened = s.opened + 1 })

-- The states that lie ahead of `s`.
pub data Reach (s : System) : System → Type 0 where
  here : Reach s s
  next : {t u : System} → Reach s t → Step t u → Reach s u
