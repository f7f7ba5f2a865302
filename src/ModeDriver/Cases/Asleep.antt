-- ===== src/ModeDriver/Cases/Asleep.antt =====
-- Threads that sleep in E2_IOCMODE1, as those of case3.cpp come to do.
use advanced_systems_program.Prelude.{ℕ, ◌≤◌, ◌<◌, ◌≡◌, refl, ap, arith, List, [], ◌∷◌}
use advanced_systems_program.ModeDriver.Device.{Device, Mode, mode1, mode2}
use advanced_systems_program.ModeDriver.System
use advanced_systems_program.ModeDriver.Invariant.{InMode, Reach-IsSound}
use advanced_systems_program.ModeDriver.Cases.{
  Call, create, ready, opening, waiting1, woken1, waiting2, woken2, locking, Thread, at, Act,
  open_waits, open_returns, open_enters, release, mode2_done, mode2_waits, mode2_wakes,
  mode2_switches, mode2_again, mode1_done, mode1_waits, mode1_locks, mode1_wakes, mode1_relocks,
  mode1_again, mode1_finishes, State, Programs, Step, act, spawn, begin, Reach,
}
use advanced_systems_program.ModeDriver.Cases.Counts.{
  is_waiting2, is_locking, place, tally, tally-append, threads-Processes,
}

-- 1 for a thread that is not over and not asleep on `queue2`.
abbrev pub awake : Thread → ℕ
awake (at n ready []) = 0
awake (at n waiting2 cs) = 0
awake (at n p cs) = 1

-- Only one that is asleep can act, when `count2` comes to 1.
Act-awake : {d e : Device} {v w : Thread} → Act d v e w → awake v ≡ 0 → d.count2 ≡ 1
Act-awake (open_waits p q) h = ground arith
Act-awake (open_returns p q) h = ground arith
Act-awake (open_enters p) h = ground arith
Act-awake (release p) h = ground arith
Act-awake (mode2_done p q) h = ground arith
Act-awake (mode2_waits p q) h = ground arith
Act-awake (mode2_wakes p) h = ground arith
Act-awake (mode2_switches p q) h = ground arith
Act-awake (mode2_again p q) h = ground arith
Act-awake (mode1_done p q) h = ground arith
Act-awake (mode1_waits p q) h = ground arith
Act-awake (mode1_locks p q) h = ground arith
Act-awake (mode1_wakes p) h = p
Act-awake (mode1_relocks p q) h = ground arith
Act-awake (mode1_again p q) h = ground arith
Act-awake (mode1_finishes p) h = ground arith

Step-awake :
    {programs : Programs} {s t : State}
    → Step programs s t
    → tally awake s.threads ≡ 0
    → s.dev.count2 ≡ 1
Step-awake (act {v = v} front rest a) h =
    let i = tally-append awake front v rest in Act-awake a (omega arith)
Step-awake (spawn n k cs front rest) h =
    let i = tally-append awake front (at n ready (create k ∷ cs)) rest in ground arith

awake-locking : (ws : List Thread) → tally awake ws ≡ 0 → tally (λ w. is_locking (place w)) ws ≡ 0
awake-locking [] h = refl
awake-locking (at n ready cs ∷ ws) h = let i = awake-locking ws (omega arith) in omega arith
awake-locking (at n waiting2 cs ∷ ws) h = let i = awake-locking ws (omega arith) in omega arith
awake-locking (at n opening cs ∷ ws) h = ground arith
awake-locking (at n waiting1 cs ∷ ws) h = ground arith
awake-locking (at n woken1 cs ∷ ws) h = ground arith
awake-locking (at n woken2 cs ∷ ws) h = ground arith
awake-locking (at n locking cs ∷ ws) h = ground arith

-- Processes that sleep on `queue2` are in MODE2, and hold the device.
waiting2-counts :
    (m : Mode) (t : System.System)
    → InMode m t
    → 0 < t.waiting2
    → (t.waiting2 ≤ t.dev.count2) × (t.dev.sem2 ≡ 1)
waiting2-counts mode1 t i h = ground arith
waiting2-counts mode2 t i h = ground arith

no_step :
    {programs : Programs} {s t : State}
    → tally awake s.threads ≡ 0
    → 2 ≤ s.dev.count2
    → ¬ Step programs s t
no_step h c st = let e = Step-awake st h in omega arith

-- In a state that threads reach without signals, in which two of them or more sleep in E2_IOCMODE1
-- and the others are over, both semaphores are free, and yet no step is left.
pub asleep-no_step :
    (programs : Programs) (main : List Call) {s : State} (t : State)
    → Reach programs (begin main) s
    → tally awake s.threads ≡ 0
    → 2 ≤ tally (λ w. is_waiting2 (place w)) s.threads
    → (s.dev.sem1 ≡ 1) × (s.dev.sem2 ≡ 1) × ¬ Step programs s t
asleep-no_step programs main {s} t r h two =
    let (u, reach, linked) = threads-Processes programs main r in
    let sound = Reach-IsSound reach in
    let waiting2_eq = linked.waiting2_eq in
    let (count2_ge, sem2_eq) = waiting2-counts u.dev.mode u sound.in_mode (omega arith) in
    let locking_eq = linked.locking_eq in
    let none = awake-locking s.threads h in
    let exclusive = sound.exclusive in
    let d1 = ap (λ d. d.sem1) linked.dev_eq in
    let d2 = ap (λ d. d.sem2) linked.dev_eq in
    let d3 = ap (λ d. d.count2) linked.dev_eq in (omega arith, omega arith, no_step h (omega arith))
