-- ===== src/ModeDriver/Deadlock.antt =====
-- E2_IOCMODE2 while another process waits to open the device.
use advanced_systems_program.Prelude.{◌≤◌, ◌<◌, ◌≡◌, refl, arith}
use mathlib.Core.Path.{subst}
use advanced_systems_program.ModeDriver.Device.{
  Mode, mode1, mode2, e2_open_section, takes_sem2, e2_release, ioctl_mode1, ioctl_mode2,
  switch_to_mode1, switch_to_mode2, finish_mode1, mode1_in, mode2_in,
}
use advanced_systems_program.ModeDriver.System.{
  System, start, Step, open_waits, open_returns, open_enters, release, mode2_done, mode2_waits,
  mode2_wakes, mode2_switches, mode2_again, mode1_done, mode1_waits, mode1_locks, mode1_wakes,
  mode1_relocks, mode1_again, mode1_finishes, Reach, here, next,
}
use advanced_systems_program.ModeDriver.Invariant.{InMode, IsSound, Reach-IsSound}

-- One process sleeps on `queue1` with the device open, and the others wait to open it.
record Stuck (s : System) : Type 0 where
  in_mode1 : s.dev.mode ≡ mode1
  sem2 : s.dev.sem2 ≡ 0
  count1 : 2 ≤ s.dev.count1
  waiting1 : s.waiting1 ≡ 1
  woken1 : s.woken1 ≡ 0
  opened : s.opened ≡ 0
  woken2 : s.woken2 ≡ 0
  waiting2 : s.waiting2 ≡ 0
  locking : s.locking ≡ 0

IsSound-Stuck :
    (s : System) → IsSound s → s.dev.mode ≡ mode1 → 0 < s.waiting1 → 0 < s.opening → Stuck s
IsSound-Stuck s h m w o =
    let i : InMode mode1 s = subst (λ x. InMode x s) m h.in_mode in ground arith

waiting1-mode1 : (m : Mode) (s : System) → InMode m s → 0 < s.waiting1 → m ≡ mode1
waiting1-mode1 mode1 s i w = refl
waiting1-mode1 mode2 s i w = ground arith

Step-Stuck : {s t : System} → Stuck s → Step s t → Stuck t
unfolding e2_open_section takes_sem2 e2_release ioctl_mode1 ioctl_mode2 switch_to_mode1
    switch_to_mode2 finish_mode1 mode1_in mode2_in
Step-Stuck h (open_waits p q) = ground arith
Step-Stuck h (open_returns p q) = ground arith
Step-Stuck h (open_enters p q) = ground arith
Step-Stuck h (release p q) = ground arith
Step-Stuck h (mode2_done p q r) = ground arith
Step-Stuck h (mode2_waits p q r) = ground arith
Step-Stuck h (mode2_wakes p q) = ground arith
Step-Stuck h (mode2_switches p q r) = ground arith
Step-Stuck h (mode2_again p q r) = ground arith
Step-Stuck h (mode1_done p q r) = ground arith
Step-Stuck h (mode1_waits p q r) = ground arith
Step-Stuck h (mode1_locks p q r) = ground arith
Step-Stuck h (mode1_wakes p q) = ground arith
Step-Stuck h (mode1_relocks p q r) = ground arith
Step-Stuck h (mode1_again p q r) = ground arith
Step-Stuck h (mode1_finishes p q) = ground arith

Reach-Stuck : {s t : System} → Stuck s → Reach s t → Stuck t
Reach-Stuck h here = h
Reach-Stuck h (next r st) = Step-Stuck (Reach-Stuck h r) st

-- Once a process sleeps in E2_IOCMODE2 while another is in `e2_open` before `down(&sem2)`, no step
-- of the processes without signals wakes it: the call never returns, and no process has the device
-- open and is in no call.
pub mode2-deadlock :
    {s t : System}
    → Reach start s
    → 0 < s.waiting1
    → 0 < s.opening
    → Reach s t
    → (t.waiting1 ≡ 1) × (t.woken1 ≡ 0) × (t.opened ≡ 0)
mode2-deadlock {s} r w o later =
    let sound = Reach-IsSound r in
    let stuck =
      Reach-Stuck (IsSound-Stuck s sound (waiting1-mode1 s.dev.mode s sound.in_mode w) w o) later in
    (stuck.waiting1, stuck.woken1, stuck.opened)
