-- ===== src/ModeDriver/Cases/Endless.antt =====
-- Programs that open the device more than once and never close it, as case1.cpp and case3.cpp do.
use advanced_systems_program.Prelude.{
  ℕ, zero, suc, ◌+◌, ◌-◌, ◌≤◌, ◌<◌, ◌≡◌, refl, ap, ◌∙◌, arith, List, [], ◌∷◌, ◌++◌,
}
use advanced_systems_program.ModeDriver.Device.{
  Device, Mode, mode1, mode2, e2_open_section, takes_sem2, e2_release, ioctl_mode1, ioctl_mode2,
  switch_to_mode1, switch_to_mode2, finish_mode1, mode1_in, mode2_in,
}
use advanced_systems_program.ModeDriver.System
use advanced_systems_program.ModeDriver.Invariant.{exclusive_in_mode1}
use advanced_systems_program.ModeDriver.Cases.{
  Call, open_device, to_mode1, to_mode2, close_device, create, ready, opening, waiting1, woken1,
  waiting2, woken2, locking, Thread, at, Act, open_waits, open_returns, open_enters, release,
  mode2_done, mode2_waits, mode2_wakes, mode2_switches, mode2_again, mode1_done, mode1_waits,
  mode1_locks, mode1_wakes, mode1_relocks, mode1_again, mode1_finishes, State, Programs, act, spawn,
  begin, Reach, here, next,
}
use advanced_systems_program.ModeDriver.Cases.Counts.{
  files, is_locking, place, tally, tally-append, threads-Processes,
}

-- The calls of E2_IOCMODE1.
abbrev pub returns : List Call → ℕ
returns [] = 0
returns (to_mode1 ∷ cs) = 1 + returns cs
returns (_ ∷ cs) = returns cs

-- The calls that close the device, and those of E2_IOCMODE2 that none of E2_IOCMODE1 follows.
abbrev pub faults : List Call → ℕ
faults [] = 0
faults (to_mode2 ∷ cs) = (1 - returns cs) + faults cs
faults (close_device ∷ cs) = 1 + faults cs
faults (_ ∷ cs) = faults cs

abbrev pub opens : List Call → ℕ
opens [] = 0
opens (open_device ∷ cs) = 1 + opens cs
opens (_ ∷ cs) = opens cs

-- The calls of `open` that a program makes, and those of the programs that it creates.
abbrev pub all_opens : Programs → List Call → ℕ
all_opens programs [] = 0
all_opens programs (open_device ∷ cs) = 1 + all_opens programs cs
all_opens programs (create k ∷ cs) = opens (programs k) + all_opens programs cs
all_opens programs (_ ∷ cs) = all_opens programs cs

opens_le : (programs : Programs) (cs : List Call) → opens cs ≤ all_opens programs cs
opens_le programs [] = ground arith
opens_le programs (open_device ∷ cs) = let h = opens_le programs cs in ground arith
opens_le programs (create k ∷ cs) = let h = opens_le programs cs in ground arith
opens_le programs (to_mode1 ∷ cs) = opens_le programs cs
opens_le programs (to_mode2 ∷ cs) = opens_le programs cs
opens_le programs (close_device ∷ cs) = opens_le programs cs

-- 1 for a thread that has a call to make or to return from.
abbrev pub unfinished : Thread → ℕ
unfinished (at n ready []) = 0
unfinished (at n p cs) = 1

-- The calls of E2_IOCMODE1 that have not yet come past their test.
abbrev pub owed : Thread → ℕ
owed (at n waiting2 cs) = 1 + returns cs
owed (at n woken2 cs) = 1 + returns cs
owed (at n _ cs) = returns cs

abbrev faulty : Thread → ℕ
faulty (at n waiting1 cs) = (1 - returns cs) + faults cs
faulty (at n woken1 cs) = (1 - returns cs) + faults cs
faulty (at n _ cs) = faults cs

-- The files that a thread has, is in a call with, or will come to have with its programs.
abbrev demand : Programs → Thread → ℕ
demand programs (at n ready cs) = n + all_opens programs cs
demand programs (at n _ cs) = n + 1 + all_opens programs cs

abbrev pub is_mode2 : Mode → ℕ
is_mode2 mode1 = 0
is_mode2 mode2 = 1

-- A thread among others with these sums.
record Good (programs : Programs) (faulty' owed' demand' : ℕ) (d : Device) (v : Thread)
    : Type 0 where
  fair : faulty v + faulty' ≡ 0
  returning : is_mode2 d.mode ≤ owed v + owed'
  several : 2 ≤ demand programs v + demand'

Act-Good :
    {programs : Programs} {f o m : ℕ} {d e : Device} {v w : Thread}
    → Good programs f o m d v
    → Act d v e w
    → Good programs f o m e w
unfolding e2_open_section takes_sem2 e2_release ioctl_mode1 ioctl_mode2 switch_to_mode1
    switch_to_mode2 finish_mode1 mode1_in mode2_in
Act-Good h (open_waits p q) = ground arith
Act-Good h (open_returns p q) = ground arith
Act-Good h (open_enters p) = ground arith
Act-Good h (release p) = ground arith
Act-Good h (mode2_done p q) = ground arith
Act-Good h (mode2_waits p q) = ground arith
Act-Good h (mode2_wakes p) = ground arith
Act-Good h (mode2_switches p q) = ground arith
Act-Good h (mode2_again p q) = ground arith
Act-Good h (mode1_done p q) = ground arith
Act-Good h (mode1_waits p q) = ground arith
Act-Good h (mode1_locks p q) = ground arith
Act-Good h (mode1_wakes p) = ground arith
Act-Good h (mode1_relocks p q) = ground arith
Act-Good h (mode1_again p q) = ground arith
Act-Good h (mode1_finishes p) = ground arith

record Fair (programs : Programs) (s : State) : Type 0 where
  fair : tally faulty s.threads ≡ 0
  returning : is_mode2 s.dev.mode ≤ tally owed s.threads
  several : 2 ≤ tally (demand programs) s.threads

Act-Fair :
    {programs : Programs} {d e : Device} {v w : Thread} (front rest : List Thread)
    → Act d v e w
    → Fair programs (record { dev = d; threads = front ++ v ∷ rest })
    → Fair programs (record { dev = e; threads = front ++ w ∷ rest })
Act-Fair {programs} {d} {e} {v} {w} front rest a h =
    let f = tally-append faulty front in
    let o = tally-append owed front in
    let m = tally-append (demand programs) front in
    let f0 = f v rest in
    let o0 = o v rest in
    let m0 = m v rest in
    let hf = h.fair in
    let hr = h.returning in
    let hs = h.several in
    let g : Good programs (tally faulty front + tally faulty rest)
        (tally owed front + tally owed rest)
        (tally (demand programs) front + tally (demand programs) rest) d v =
      record { fair = omega arith; returning = omega arith; several = omega arith } in
    let g' = Act-Good g a in
    let f1 = f w rest in
    let o1 = o w rest in
    let m1 = m w rest in
    let gf = g'.fair in
    let gr = g'.returning in
    let gs = g'.several in
    record { fair = omega arith; returning = omega arith; several = omega arith }

spawn-Fair :
    {programs : Programs} {d : Device} (n k : ℕ) (cs : List Call) (front rest : List Thread)
    → faults (programs k) ≡ 0
    → Fair programs (record { dev = d; threads = front ++ at n ready (create k ∷ cs) ∷ rest })
    → Fair programs
        (record { dev = d; threads = at 0 ready (programs k) ∷ (front ++ at n ready cs ∷ rest) })
spawn-Fair {programs} n k cs front rest p h =
    let f0 = tally-append faulty front (at n ready (create k ∷ cs)) rest in
    let o0 = tally-append owed front (at n ready (create k ∷ cs)) rest in
    let m0 = tally-append (demand programs) front (at n ready (create k ∷ cs)) rest in
    let f1 = tally-append faulty front (at n ready cs) rest in
    let o1 = tally-append owed front (at n ready cs) rest in
    let m1 = tally-append (demand programs) front (at n ready cs) rest in
    let q = opens_le programs (programs k) in
    let hf = h.fair in
    let hr = h.returning in
    let hs = h.several in
    record { fair = omega arith; returning = omega arith; several = omega arith }

Reach-Fair :
    (programs : Programs) (main : List Call)
    → ((k : ℕ) → faults (programs k) ≡ 0)
    → faults main ≡ 0
    → 2 ≤ all_opens programs main
    → {s : State} → Reach programs (begin main) s
    → Fair programs s
Reach-Fair programs main p q r here = record {
  fair = omega arith;
  returning = omega arith;
  several = omega arith;
}
Reach-Fair programs main p q r (next x (act front rest a)) =
    Act-Fair front rest a (Reach-Fair programs main p q r x)
Reach-Fair programs main p q r (next x (spawn n k cs front rest)) =
    spawn-Fair n k cs front rest (p k) (Reach-Fair programs main p q r x)

-- When all threads are over, none owes a call, and what they demanded they have.
over-sums :
    (programs : Programs) (ws : List Thread)
    → tally unfinished ws ≡ 0
    → (tally owed ws ≡ 0)
      × (tally (demand programs) ws ≡ tally files ws)
      × (tally (λ w. is_locking (place w)) ws ≡ 0)
over-sums programs [] h = (refl, refl, refl)
over-sums programs (at n ready [] ∷ ws) h =
    let i = over-sums programs ws (omega arith) in (omega arith, omega arith, omega arith)
over-sums programs (at n ready (c ∷ cs) ∷ ws) h = ground arith
over-sums programs (at n opening cs ∷ ws) h = ground arith
over-sums programs (at n waiting1 cs ∷ ws) h = ground arith
over-sums programs (at n woken1 cs ∷ ws) h = ground arith
over-sums programs (at n waiting2 cs ∷ ws) h = ground arith
over-sums programs (at n woken2 cs ∷ ws) h = ground arith
over-sums programs (at n locking cs ∷ ws) h = ground arith

mode1_of : (m : Mode) → is_mode2 m ≡ 0 → m ≡ mode1
mode1_of mode1 h = refl
mode1_of mode2 h = ground arith

not_0 : (n : ℕ) → (n ≡ 0 → 1 ≤ 0) → 0 < n
not_0 zero h = let i = h refl in omega arith
not_0 (suc n) h = omega arith

crowded :
    {t : System.System}
    → System.Reach System.start t
    → t.dev.mode ≡ mode1
    → t.locking ≡ 0
    → 2 ≤ t.opened
    → 1 ≤ 0
crowded r m l o = let e = exclusive_in_mode1 r m l in omega arith

-- Programs whose threads make two calls of `open` or more, never close, and follow each E2_IOCMODE2
-- with an E2_IOCMODE1, never come to an end: in every state that they reach without signals, some
-- thread has a call to make or to return from.
pub program-never_ends :
    (programs : Programs) (main : List Call)
    → ((k : ℕ) → faults (programs k) ≡ 0)
    → faults main ≡ 0
    → 2 ≤ all_opens programs main
    → {s : State} → Reach programs (begin main) s
    → 0 < tally unfinished s.threads
program-never_ends programs main p q o {s} r = not_0 (tally unfinished s.threads) λ h.
    let f = Reach-Fair programs main p q o r in
    let (t, reach, linked) = threads-Processes programs main r in
    let (no_owed, demanded, no_locking) = over-sums programs s.threads h in
    let returning = f.returning in
    let several = f.several in
    let at_files = linked.opened_eq in
    let at_locking = linked.locking_eq in
    crowded reach (ap (λ d. d.mode) linked.dev_eq ∙ mode1_of s.dev.mode (omega arith)) (omega arith)
      (omega arith)
