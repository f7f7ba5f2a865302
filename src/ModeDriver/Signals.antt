-- ===== src/ModeDriver/Signals.antt =====
-- Signals that end a wait for `sem2` or in `wait_event` of assignment6.c, whose calls go on whatever
-- `down_interruptible` and `wait_event_interruptible` return. A signal that ends a wait for `sem1`
-- is left out: the section then runs without the lock, and is no longer one step.
use advanced_systems_program.Prelude.{ℕ, zero, suc, ◌+◌, ◌-◌, ◌<◌, ◌≡◌, refl, arith}
use mathlib.Core.Path.{subst}
use advanced_systems_program.ModeDriver.Device.{
  Mode, mode1, mode2, e2_open_section, takes_sem2, e2_release, ioctl_mode1, ioctl_mode2,
  switch_to_mode1, switch_to_mode2, finish_mode1, mode1_in, mode2_in,
}
use advanced_systems_program.ModeDriver.System.{
  System, start, Step, open_waits, open_returns, open_enters, release, mode2_done, mode2_waits,
  mode2_wakes, mode2_switches, mode2_again, mode1_done, mode1_waits, mode1_locks, mode1_wakes,
  mode1_relocks, mode1_again, mode1_finishes,
}
use advanced_systems_program.ModeDriver.Invariant.{holders, Counted}

pub data SignalStep (s : System) : System → Type 0 where
  step : {t : System} → Step s t → SignalStep s t
  -- in `down(&sem2)` of `e2_open`, which then returns 0
  open_interrupted :
      0 < s.opening
      → s.dev.sem2 ≡ 0
      → SignalStep s (record s { opening = s.opening - 1; opened = s.opened + 1 })
  -- in `wait_event` of E2_IOCMODE2 and of E2_IOCMODE1
  mode2_interrupted :
      0 < s.waiting1 → SignalStep s (record s { waiting1 = s.waiting1 - 1; woken1 = s.woken1 + 1 })
  mode1_interrupted :
      0 < s.waiting2 → SignalStep s (record s { waiting2 = s.waiting2 - 1; woken2 = s.woken2 + 1 })
  -- in `down(&sem2)` of E2_IOCMODE1, which then gives `sem1` back
  lock_interrupted :
      0 < s.locking
      → s.dev.sem2 ≡ 0
      → SignalStep s (record s {
        dev = record s.dev { sem1 = s.dev.sem1 + 1 };
        locking = s.locking - 1;
        opened = s.opened + 1;
      })

pub data SignalReach (s : System) : System → Type 0 where
  here : SignalReach s s
  next : {t u : System} → SignalReach s t → SignalStep t u → SignalReach s u

-- What signals leave of the invariant.
abbrev Kept : Mode → System → Type 0
Kept mode1 s =
    (s.dev.count1 ≡ holders s + s.opening) × (s.dev.count2 ≡ 0) × (s.waiting2 + s.woken2 ≡ 0)
Kept mode2 s =
    (s.dev.count2 ≡ holders s)
    × (s.dev.count1 ≡ 0)
    × (s.opening ≡ 0)
    × (s.waiting1 + s.woken1 + s.locking ≡ 0)

record IsKept (s : System) : Type 0 where
  in_mode : Kept s.dev.mode s

Step-IsKept : {s t : System} → IsKept s → Step s t → IsKept t
unfolding e2_open_section takes_sem2 e2_release ioctl_mode1 ioctl_mode2 switch_to_mode1
    switch_to_mode2 finish_mode1 mode1_in mode2_in
Step-IsKept h (open_waits p q) = ground arith
Step-IsKept h (open_returns p q) = ground arith
Step-IsKept h (open_enters p q) = ground arith
Step-IsKept h (release p q) = ground arith
Step-IsKept h (mode2_done p q r) = ground arith
Step-IsKept h (mode2_waits p q r) = ground arith
Step-IsKept h (mode2_wakes p q) = ground arith
Step-IsKept h (mode2_switches p q r) = ground arith
Step-IsKept h (mode2_again p q r) = ground arith
Step-IsKept h (mode1_done p q r) = ground arith
Step-IsKept h (mode1_waits p q r) = ground arith
Step-IsKept h (mode1_locks p q r) = ground arith
Step-IsKept h (mode1_wakes p q) = ground arith
Step-IsKept h (mode1_relocks p q r) = ground arith
Step-IsKept h (mode1_again p q r) = ground arith
Step-IsKept h (mode1_finishes p q) = ground arith

SignalStep-IsKept : {s t : System} → IsKept s → SignalStep s t → IsKept t
SignalStep-IsKept h (step st) = Step-IsKept h st
SignalStep-IsKept h (open_interrupted p q) = ground arith
SignalStep-IsKept h (mode2_interrupted p) = ground arith
SignalStep-IsKept h (mode1_interrupted p) = ground arith
SignalStep-IsKept h (lock_interrupted p q) = ground arith

SignalReach-IsKept : {t : System} → SignalReach start t → IsKept t
SignalReach-IsKept here = record { in_mode = (refl, refl, refl) }
SignalReach-IsKept (next r st) = SignalStep-IsKept (SignalReach-IsKept r) st

Kept-Counted : (m : Mode) (t : System) → Kept m t → Counted m t
Kept-Counted mode1 t k = (k.0, k.1)
Kept-Counted mode2 t k = (k.0, k.1, k.2)

-- In every state that the processes reach, with signals that end a wait for `sem2` or in `wait_event`
-- among their steps and none that ends a wait for `sem1`, `count1` counts in MODE1 the processes that
-- have the device open or wait to open it, and `count2` is 0; in MODE2 `count2` counts those that
-- have it open, `count1` is 0, and nobody waits to open it.
pub counts_exact-signalled : {t : System} → SignalReach start t → Counted t.dev.mode t
counts_exact-signalled {t} r = Kept-Counted t.dev.mode t (SignalReach-IsKept r).in_mode

-- `n` processes have the device open in MODE1, and nobody else is in a call.
abbrev crowd : ℕ → System
crowd n = record start { dev = record start.dev { count1 = n; sem2 = 0 }; opened = n }

open_one : SignalReach start (crowd 1)
unfolding e2_open_section takes_sem2
open_one =
    next (next here (step (open_waits (ground arith) refl)))
      (step (open_enters (ground arith) (ground arith)))

open_more : (n : ℕ) → SignalReach start (crowd n) → 0 < n → SignalReach start (crowd (n + 1))
unfolding e2_open_section takes_sem2
open_more n r h =
    next (next r (step (open_waits (ground arith) refl))) (open_interrupted (ground arith) refl)

crowd-reached : (n : ℕ) → SignalReach start (crowd (n + 1))
crowd-reached zero = open_one
crowd-reached (suc n) =
    subst (λ k. SignalReach start (crowd (k + 1))) (omega arith)
      (open_more (n + 1) (crowd-reached n) (omega arith))

-- With signals that end the wait for `sem2` in `e2_open`, any number of processes comes to have the
-- device open in MODE1, with no switch under way.
pub mode1-crowded :
    (n : ℕ)
    → (t : System) × SignalReach start t
      × (t.dev.mode ≡ mode1)
      × (t.locking ≡ 0)
      × (holders t ≡ n + 1)
mode1-crowded n = (crowd (n + 1), crowd-reached n, refl, refl, omega arith)
