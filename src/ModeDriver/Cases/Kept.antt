-- ===== src/ModeDriver/Cases/Kept.antt =====
-- A thread that keeps the device open, as `main` of case4.cpp does, while others call E2_IOCMODE1.
use advanced_systems_program.Prelude.{
  ℕ, ◌+◌, ◌≤◌, ◌<◌, ◌≡◌, refl, ap, ◌∙◌, arith, List, [], ◌∷◌, ◌++◌,
}
use advanced_systems_program.ModeDriver.Device.{
  Device, Mode, mode1, mode2, e2_open_section, takes_sem2, e2_release, ioctl_mode1, ioctl_mode2,
  switch_to_mode1, switch_to_mode2, finish_mode1, mode1_in, mode2_in,
}
use advanced_systems_program.ModeDriver.System
use advanced_systems_program.ModeDriver.Invariant.{Counted, counts_exact}
use advanced_systems_program.ModeDriver.Cases.{
  Call, open_device, to_mode1, to_mode2, close_device, create, ready, opening, waiting1, woken1,
  waiting2, woken2, locking, Thread, at, Act, open_waits, open_returns, open_enters, release,
  mode2_done, mode2_waits, mode2_wakes, mode2_switches, mode2_again, mode1_done, mode1_waits,
  mode1_locks, mode1_wakes, mode1_relocks, mode1_again, mode1_finishes, State, Programs, act, spawn,
  begin, Reach, here, next,
}
use advanced_systems_program.ModeDriver.Cases.Counts.{
  files, is_woken2, place, tally, tally-append, threads-Processes,
}
use advanced_systems_program.ModeDriver.Cases.Endless.{owed, is_mode2}

-- The files of a thread that goes on only to create others.
abbrev pub kept_by : ℕ → List Call → ℕ
kept_by n [] = n
kept_by n (create k ∷ cs) = kept_by n cs
kept_by n (_ ∷ cs) = 0

abbrev pub kept : Thread → ℕ
kept (at n ready cs) = kept_by n cs
kept (at n _ cs) = 0

kept_by_le : (n : ℕ) (cs : List Call) → kept_by n cs ≤ n
kept_by_le n [] = ground arith
kept_by_le n (create k ∷ cs) = kept_by_le n cs
kept_by_le n (open_device ∷ cs) = ground arith
kept_by_le n (to_mode1 ∷ cs) = ground arith
kept_by_le n (to_mode2 ∷ cs) = ground arith
kept_by_le n (close_device ∷ cs) = ground arith

kept_le : (w : Thread) → kept w ≤ files w
kept_le (at n ready cs) = kept_by_le n cs
kept_le (at n opening cs) = ground arith
kept_le (at n waiting1 cs) = ground arith
kept_le (at n woken1 cs) = ground arith
kept_le (at n waiting2 cs) = ground arith
kept_le (at n woken2 cs) = ground arith
kept_le (at n locking cs) = ground arith

tally-kept_le : (ws : List Thread) → tally kept ws ≤ tally files ws
tally-kept_le [] = ground arith
tally-kept_le (w ∷ ws) = let h = kept_le w in let i = tally-kept_le ws in omega arith

-- The device in MODE2, with files that are kept by this thread or by others.
record Held (others : ℕ) (d : Device) (v : Thread) : Type 0 where
  in_mode2 : is_mode2 d.mode ≡ 1
  some_kept : 1 ≤ kept v + others
  counted : files v + is_woken2 (place v) + others ≤ d.count2

record Holds (d : Device) (v w : Thread) : Type 0 where
  in_mode2 : is_mode2 d.mode ≡ 1
  kept_grows : kept v ≤ kept w
  owed_grows : owed v ≤ owed w

Act-Holds : {others : ℕ} {d e : Device} {v w : Thread} → Held others d v → Act d v e w → Holds e v w
unfolding e2_open_section takes_sem2 e2_release ioctl_mode1 ioctl_mode2 switch_to_mode1
    switch_to_mode2 finish_mode1 mode1_in mode2_in
Act-Holds h (open_waits p q) = ground arith
Act-Holds h (open_returns p q) = ground arith
Act-Holds h (open_enters p) = ground arith
Act-Holds h (release p) = ground arith
Act-Holds h (mode2_done p q) = ground arith
Act-Holds h (mode2_waits p q) = ground arith
Act-Holds h (mode2_wakes p) = ground arith
Act-Holds h (mode2_switches p q) = ground arith
Act-Holds h (mode2_again p q) = ground arith
Act-Holds h (mode1_done p q) = ground arith
Act-Holds h (mode1_waits p q) = ground arith
Act-Holds h (mode1_locks p q) = ground arith
Act-Holds h (mode1_wakes p) = ground arith
Act-Holds h (mode1_relocks p q) = ground arith
Act-Holds h (mode1_again p q) = ground arith
Act-Holds h (mode1_finishes p) = ground arith

-- What stays so from `s` on.
record Stays (s t : State) : Type 0 where
  in_mode2 : is_mode2 t.dev.mode ≡ 1
  some_kept : 1 ≤ tally kept t.threads
  owed_grows : tally owed s.threads ≤ tally owed t.threads

mode2-count2_ge :
    (m : Mode) (t : System.System)
    → Counted m t
    → is_mode2 m ≡ 1
    → t.opened + t.woken2 ≤ t.dev.count2
mode2-count2_ge mode1 t c h = ground arith
mode2-count2_ge mode2 t c h = ground arith

count2_ge :
    (programs : Programs) (main : List Call) {s : State}
    → Reach programs (begin main) s
    → is_mode2 s.dev.mode ≡ 1
    → tally files s.threads + tally (λ w. is_woken2 (place w)) s.threads ≤ s.dev.count2
count2_ge programs main {s} r h =
    let (t, reach, linked) = threads-Processes programs main r in
    let m = ap (λ d. is_mode2 d.mode) linked.dev_eq in
    let c = mode2-count2_ge t.dev.mode t (counts_exact reach) (m ∙ h) in
    let e = ap (λ d. d.count2) linked.dev_eq in
    let f = linked.opened_eq in let w = linked.woken2_eq in omega arith

Act-Stays :
    {s : State} {d e : Device} {v w : Thread} (front rest : List Thread)
    → Stays s (record { dev = d; threads = front ++ v ∷ rest })
    → tally files (front ++ v ∷ rest) + tally (λ w. is_woken2 (place w)) (front ++ v ∷ rest)
      ≤ d.count2
    → Act d v e w
    → Stays s (record { dev = e; threads = front ++ w ∷ rest })
Act-Stays {s} {d} {e} {v} {w} front rest h c a =
    let k0 = tally-append kept front v rest in
    let o0 = tally-append owed front v rest in
    let f0 = tally-append files front v rest in
    let w0 = tally-append (λ w. is_woken2 (place w)) front v rest in
    let k1 = tally-append kept front w rest in
    let o1 = tally-append owed front w rest in
    let p = tally-kept_le front in
    let q = tally-kept_le rest in
    let some_kept = h.some_kept in
    let owed_grows = h.owed_grows in
    let held : Held (tally kept front + tally kept rest) d v = record {
      in_mode2 = h.in_mode2;
      some_kept = omega arith;
      counted = omega arith;
    } in
    let held' = Act-Holds held a in
    let kept' = held'.kept_grows in
    let owed' = held'.owed_grows in
    record { in_mode2 = held'.in_mode2; some_kept = omega arith; owed_grows = omega arith }

spawn-Stays :
    {s : State} {d : Device} (programs : Programs) (n k : ℕ) (cs : List Call)
    (front rest : List Thread)
    → Stays s (record { dev = d; threads = front ++ at n ready (create k ∷ cs) ∷ rest })
    → Stays s
        (record { dev = d; threads = at 0 ready (programs k) ∷ (front ++ at n ready cs ∷ rest) })
spawn-Stays programs n k cs front rest h =
    let k0 = tally-append kept front (at n ready (create k ∷ cs)) rest in
    let o0 = tally-append owed front (at n ready (create k ∷ cs)) rest in
    let k1 = tally-append kept front (at n ready cs) rest in
    let o1 = tally-append owed front (at n ready cs) rest in
    let some_kept = h.some_kept in
    let owed_grows = h.owed_grows in
    record { in_mode2 = h.in_mode2; some_kept = omega arith; owed_grows = omega arith }

after :
    {programs : Programs} {s t u : State}
    → Reach programs s t
    → Reach programs t u
    → Reach programs s u
after r here = r
after r (next q st) = next (after r q) st

Reach-Stays :
    (programs : Programs) (main : List Call) {s t : State}
    → Reach programs (begin main) s
    → is_mode2 s.dev.mode ≡ 1
    → 0 < tally kept s.threads
    → Reach programs s t
    → Stays s t
Reach-Stays programs main r m k here = record {
  in_mode2 = m;
  some_kept = omega arith;
  owed_grows = omega arith;
}
Reach-Stays programs main r m k (next q (act front rest a)) =
    let h = Reach-Stays programs main r m k q in
    Act-Stays front rest h (count2_ge programs main (after r q) h.in_mode2) a
Reach-Stays programs main r m k (next q (spawn n j cs front rest)) =
    spawn-Stays programs n j cs front rest (Reach-Stays programs main r m k q)

mode2_of : (m : Mode) → is_mode2 m ≡ 1 → m ≡ mode2
mode2_of mode1 h = ground arith
mode2_of mode2 h = refl

-- From a state in MODE2, reached without signals, in which a thread has the device open and goes on
-- only to create other threads, the device stays in MODE2, and the calls of E2_IOCMODE1 that have
-- not come past their test do not become fewer.
pub kept_open-mode2 :
    (programs : Programs) (main : List Call) {s t : State}
    → Reach programs (begin main) s
    → s.dev.mode ≡ mode2
    → 0 < tally kept s.threads
    → Reach programs s t
    → (t.dev.mode ≡ mode2) × (tally owed s.threads ≤ tally owed t.threads)
kept_open-mode2 programs main {s} {t} r m k q =
    let h = Reach-Stays programs main r (ap is_mode2 m) k q in
    (mode2_of t.dev.mode h.in_mode2, h.owed_grows)
