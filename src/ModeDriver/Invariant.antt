-- ===== src/ModeDriver/Invariant.antt =====
-- What holds of the processes and the device in every reachable state.
use advanced_systems_program.Prelude.{ℕ, ◌+◌, ◌-◌, ◌≤◌, ◌<◌, ◌≡◌, refl, arith}
use mathlib.Core.Path.{subst}
use advanced_systems_program.ModeDriver.Device.{
  Mode, mode1, mode2, e2_open_section, takes_sem2, e2_release, ioctl_mode1, ioctl_mode2,
  switch_to_mode1, switch_to_mode2, finish_mode1, mode1_in, mode2_in,
}
use advanced_systems_program.ModeDriver.System.{
  System, start, Step, open_waits, open_returns, open_enters, release, mode2_done, mode2_waits,
  mode2_wakes, mode2_switches, mode2_again, mode1_done, mode1_waits, mode1_locks, mode1_wakes,
  mode1_relocks, mode1_again, mode1_finishes, Reach, here, next,
}

-- The processes that have the device open.
abbrev pub holders : System → ℕ
holders s = s.opened + s.waiting1 + s.woken1 + s.waiting2 + s.woken2 + s.locking

-- In MODE1 `count1` counts the holders and those who wait to be one, and there is one holder or
-- `sem2` is free. In MODE2 `count2` counts the holders.
abbrev pub InMode : Mode → System → Type 0
InMode mode1 s =
    (s.dev.count2 ≡ 0)
    × (s.dev.count1 ≡ holders s + s.opening)
    × (s.dev.sem2 + holders s ≡ 1 + s.locking)
    × (s.waiting2 + s.woken2 ≡ 0)
InMode mode2 s =
    (s.dev.count1 ≡ 0)
    × (s.dev.count2 ≡ holders s)
    × (s.dev.sem2 ≡ 1)
    × (s.opening ≡ 0)
    × (s.waiting1 + s.woken1 + s.locking ≡ 0)

pub record IsSound (s : System) : Type 0 where
  pub exclusive : s.dev.sem1 + s.locking ≡ 1
  pub sem2_le : s.dev.sem2 ≤ 1
  pub quiet : 0 < s.locking → (s.opening ≡ 0) × (s.dev.sem2 ≡ 1)
  pub in_mode : InMode s.dev.mode s

Step-IsSound : {s t : System} → IsSound s → Step s t → IsSound t
unfolding e2_open_section takes_sem2 e2_release ioctl_mode1 ioctl_mode2 switch_to_mode1
    switch_to_mode2 finish_mode1 mode1_in mode2_in
Step-IsSound h (open_waits p q) = ground arith
Step-IsSound h (open_returns p q) = ground arith
Step-IsSound h (open_enters p q) = ground arith
Step-IsSound h (release p q) = ground arith
Step-IsSound h (mode2_done p q r) = ground arith
Step-IsSound h (mode2_waits p q r) = ground arith
Step-IsSound h (mode2_wakes p q) = ground arith
Step-IsSound h (mode2_switches p q r) = ground arith
Step-IsSound h (mode2_again p q r) = ground arith
Step-IsSound h (mode1_done p q r) = ground arith
Step-IsSound h (mode1_waits p q r) = ground arith
Step-IsSound h (mode1_locks p q r) = ground arith
Step-IsSound h (mode1_wakes p q) = ground arith
Step-IsSound h (mode1_relocks p q r) = ground arith
Step-IsSound h (mode1_again p q r) = ground arith
Step-IsSound h (mode1_finishes p q) = ground arith

start-IsSound : IsSound start
start-IsSound = record {
  exclusive = refl;
  sem2_le = ground arith;
  quiet = λ h. ground arith;
  in_mode = (refl, refl, refl, refl);
}

mode1_alone : (t : System) → IsSound t → t.dev.mode ≡ mode1 → t.locking ≡ 0 → holders t ≤ 1
mode1_alone t h m l = let i : InMode mode1 t = subst (λ x. InMode x t) m h.in_mode in ground arith

pub Reach-IsSound : {t : System} → Reach start t → IsSound t
Reach-IsSound here = start-IsSound
Reach-IsSound (next r st) = Step-IsSound (Reach-IsSound r) st

-- In a state that the processes reach without signals, in MODE1 and with no switch to MODE1 under
-- way, at most one process has the device open.
pub exclusive_in_mode1 :
    {t : System} → Reach start t → t.dev.mode ≡ mode1 → t.locking ≡ 0 → holders t ≤ 1
exclusive_in_mode1 {t} r m l = mode1_alone t (Reach-IsSound r) m l

-- In a state that the processes reach without signals, a switch to MODE1 that is under way finds
-- `sem2` free, so its last step can be taken.
switch_to_mode1-finishes :
    {t : System}
    → Reach start t
    → 0 < t.locking
    → Step t (record t { dev = finish_mode1 t.dev; locking = t.locking - 1; opened = t.opened + 1 })
switch_to_mode1-finishes r l = let q = (Reach-IsSound r).quiet l in mode1_finishes l (ground arith)

-- The counts of the device are those of the processes.
abbrev pub Counted : Mode → System → Type 0
Counted mode1 t = (t.dev.count1 ≡ holders t + t.opening) × (t.dev.count2 ≡ 0)
Counted mode2 t = (t.dev.count2 ≡ holders t) × (t.dev.count1 ≡ 0) × (t.opening ≡ 0)

InMode-Counted : (m : Mode) (t : System) → InMode m t → Counted m t
InMode-Counted mode1 t i = (i.1, i.0)
InMode-Counted mode2 t i = (i.1, i.0, i.3)

-- In every state that the processes reach without signals, `count1` counts in MODE1 the processes
-- that have the device open or wait to open it, and `count2` is 0; in MODE2 `count2` counts those
-- that have it open, `count1` is 0, and nobody waits to open it.
pub counts_exact : {t : System} → Reach start t → Counted t.dev.mode t
counts_exact {t} r = InMode-Counted t.dev.mode t (Reach-IsSound r).in_mode
