-- ===== src/ModeDriver/Cases/Counts.antt =====
-- The threads of a program are processes of System, so what holds there holds of the programs.
use advanced_systems_program.Prelude.{ℕ, ◌+◌, ◌≡◌, refl, sym, ◌∙◌, List, [], ◌∷◌, ◌++◌, arith}
use mathlib.Core.Path.{subst}
use advanced_systems_program.ModeDriver.Device.{Device}
use advanced_systems_program.ModeDriver.System
use advanced_systems_program.ModeDriver.Cases.{
  Call, create, Place, ready, opening, waiting1, woken1, waiting2, woken2, locking, Thread, at, Act,
  open_waits, open_returns, open_enters, release, mode2_done, mode2_waits, mode2_wakes,
  mode2_switches, mode2_again, mode1_done, mode1_waits, mode1_locks, mode1_wakes, mode1_relocks,
  mode1_again, mode1_finishes, State, Programs, Step, act, spawn, begin, Reach, here, next,
}

abbrev pub files : Thread → ℕ
files (at n p cs) = n

abbrev pub place : Thread → Place
place (at n p cs) = p

abbrev pub is_opening : Place → ℕ
is_opening opening = 1
is_opening _ = 0

abbrev pub is_waiting1 : Place → ℕ
is_waiting1 waiting1 = 1
is_waiting1 _ = 0

abbrev pub is_woken1 : Place → ℕ
is_woken1 woken1 = 1
is_woken1 _ = 0

abbrev pub is_waiting2 : Place → ℕ
is_waiting2 waiting2 = 1
is_waiting2 _ = 0

abbrev pub is_woken2 : Place → ℕ
is_woken2 woken2 = 1
is_woken2 _ = 0

abbrev pub is_locking : Place → ℕ
is_locking locking = 1
is_locking _ = 0

-- A weight of each thread, summed.
abbrev pub tally : (Thread → ℕ) → List Thread → ℕ
tally f [] = 0
tally f (w ∷ ws) = f w + tally f ws

pub tally-append :
    (f : Thread → ℕ) (front : List Thread) (w : Thread) (rest : List Thread)
    → tally f (front ++ w ∷ rest) ≡ f w + (tally f front + tally f rest)
tally-append f [] w rest = omega arith
tally-append f (x ∷ front) w rest = omega (arith, tally-append f front w rest)

-- The counts of System are those of one thread and of the others.
record Counts (others : System.System) (w : Thread) (s : System.System) : Type 0 where
  opening_eq : s.opening ≡ is_opening (place w) + others.opening
  opened_eq : s.opened ≡ files w + others.opened
  waiting1_eq : s.waiting1 ≡ is_waiting1 (place w) + others.waiting1
  woken1_eq : s.woken1 ≡ is_woken1 (place w) + others.woken1
  waiting2_eq : s.waiting2 ≡ is_waiting2 (place w) + others.waiting2
  woken2_eq : s.woken2 ≡ is_woken2 (place w) + others.woken2
  locking_eq : s.locking ≡ is_locking (place w) + others.locking

record After (others s : System.System) (e : Device) (w : Thread) : Type 0 where
  state : System.System
  step : System.Step s state
  dev : state.dev ≡ e
  counts : Counts others w state

Act-After :
    {others s : System.System} {e : Device} {v w : Thread}
    → Counts others v s
    → Act s.dev v e w
    → After others s e w
Act-After c (open_waits p q) = record {
  state = _;
  step = System.open_waits p q;
  dev = refl;
  counts = ground arith;
}
Act-After c (open_returns p q) = record {
  state = _;
  step = System.open_returns p q;
  dev = refl;
  counts = ground arith;
}
Act-After c (open_enters p) = record {
  state = _;
  step = System.open_enters (ground arith) p;
  dev = refl;
  counts = ground arith;
}
Act-After c (release p) = record {
  state = _;
  step = System.release p (ground arith);
  dev = refl;
  counts = ground arith;
}
Act-After c (mode2_done p q) = record {
  state = _;
  step = System.mode2_done p (ground arith) q;
  dev = refl;
  counts = ground arith;
}
Act-After c (mode2_waits p q) = record {
  state = _;
  step = System.mode2_waits p (ground arith) q;
  dev = refl;
  counts = ground arith;
}
Act-After c (mode2_wakes p) = record {
  state = _;
  step = System.mode2_wakes (ground arith) p;
  dev = refl;
  counts = ground arith;
}
Act-After c (mode2_switches p q) = record {
  state = _;
  step = System.mode2_switches p (ground arith) q;
  dev = refl;
  counts = ground arith;
}
Act-After c (mode2_again p q) = record {
  state = _;
  step = System.mode2_again p (ground arith) q;
  dev = refl;
  counts = ground arith;
}
Act-After c (mode1_done p q) = record {
  state = _;
  step = System.mode1_done p (ground arith) q;
  dev = refl;
  counts = ground arith;
}
Act-After c (mode1_waits p q) = record {
  state = _;
  step = System.mode1_waits p (ground arith) q;
  dev = refl;
  counts = ground arith;
}
Act-After c (mode1_locks p q) = record {
  state = _;
  step = System.mode1_locks p (ground arith) q;
  dev = refl;
  counts = ground arith;
}
Act-After c (mode1_wakes p) = record {
  state = _;
  step = System.mode1_wakes (ground arith) p;
  dev = refl;
  counts = ground arith;
}
Act-After c (mode1_relocks p q) = record {
  state = _;
  step = System.mode1_relocks p (ground arith) q;
  dev = refl;
  counts = ground arith;
}
Act-After c (mode1_again p q) = record {
  state = _;
  step = System.mode1_again p (ground arith) q;
  dev = refl;
  counts = ground arith;
}
Act-After c (mode1_finishes p) = record {
  state = _;
  step = System.mode1_finishes (ground arith) p;
  dev = refl;
  counts = ground arith;
}

-- The counts of System are those of all threads.
pub record IsLinked (s : State) (t : System.System) : Type 0 where
  pub dev_eq : t.dev ≡ s.dev
  pub opening_eq : t.opening ≡ tally (λ w. is_opening (place w)) s.threads
  pub opened_eq : t.opened ≡ tally files s.threads
  pub waiting1_eq : t.waiting1 ≡ tally (λ w. is_waiting1 (place w)) s.threads
  pub woken1_eq : t.woken1 ≡ tally (λ w. is_woken1 (place w)) s.threads
  pub waiting2_eq : t.waiting2 ≡ tally (λ w. is_waiting2 (place w)) s.threads
  pub woken2_eq : t.woken2 ≡ tally (λ w. is_woken2 (place w)) s.threads
  pub locking_eq : t.locking ≡ tally (λ w. is_locking (place w)) s.threads

-- The counts of the threads around one.
abbrev around : Device → List Thread → List Thread → System.System
around d front rest = record {
  dev = d;
  opening = tally (λ w. is_opening (place w)) front + tally (λ w. is_opening (place w)) rest;
  opened = tally files front + tally files rest;
  waiting1 = tally (λ w. is_waiting1 (place w)) front + tally (λ w. is_waiting1 (place w)) rest;
  woken1 = tally (λ w. is_woken1 (place w)) front + tally (λ w. is_woken1 (place w)) rest;
  waiting2 = tally (λ w. is_waiting2 (place w)) front + tally (λ w. is_waiting2 (place w)) rest;
  woken2 = tally (λ w. is_woken2 (place w)) front + tally (λ w. is_woken2 (place w)) rest;
  locking = tally (λ w. is_locking (place w)) front + tally (λ w. is_locking (place w)) rest;
}

IsLinked-Counts :
    {d : Device} {v : Thread} {t : System.System} (front rest : List Thread)
    → IsLinked (record { dev = d; threads = front ++ v ∷ rest }) t
    → Counts (around d front rest) v t
IsLinked-Counts {v = v} front rest l = record {
  opening_eq = l.opening_eq ∙ tally-append (λ w. is_opening (place w)) front v rest;
  opened_eq = l.opened_eq ∙ tally-append files front v rest;
  waiting1_eq = l.waiting1_eq ∙ tally-append (λ w. is_waiting1 (place w)) front v rest;
  woken1_eq = l.woken1_eq ∙ tally-append (λ w. is_woken1 (place w)) front v rest;
  waiting2_eq = l.waiting2_eq ∙ tally-append (λ w. is_waiting2 (place w)) front v rest;
  woken2_eq = l.woken2_eq ∙ tally-append (λ w. is_woken2 (place w)) front v rest;
  locking_eq = l.locking_eq ∙ tally-append (λ w. is_locking (place w)) front v rest;
}

Counts-IsLinked :
    {d e : Device} {v : Thread} {t : System.System} (front rest : List Thread)
    → t.dev ≡ e
    → Counts (around d front rest) v t
    → IsLinked (record { dev = e; threads = front ++ v ∷ rest }) t
Counts-IsLinked {v = v} front rest h c = record {
  dev_eq = h;
  opening_eq = c.opening_eq ∙ sym (tally-append (λ w. is_opening (place w)) front v rest);
  opened_eq = c.opened_eq ∙ sym (tally-append files front v rest);
  waiting1_eq = c.waiting1_eq ∙ sym (tally-append (λ w. is_waiting1 (place w)) front v rest);
  woken1_eq = c.woken1_eq ∙ sym (tally-append (λ w. is_woken1 (place w)) front v rest);
  waiting2_eq = c.waiting2_eq ∙ sym (tally-append (λ w. is_waiting2 (place w)) front v rest);
  woken2_eq = c.woken2_eq ∙ sym (tally-append (λ w. is_woken2 (place w)) front v rest);
  locking_eq = c.locking_eq ∙ sym (tally-append (λ w. is_locking (place w)) front v rest);
}

-- A thread that has done nothing, and one that goes on to its next call, count for nothing more.
spawn-IsLinked :
    {d : Device} {t : System.System} (programs : Programs) (n k : ℕ) (cs : List Call)
    (front rest : List Thread)
    → IsLinked (record { dev = d; threads = front ++ at n ready (create k ∷ cs) ∷ rest }) t
    → IsLinked
        (record { dev = d; threads = at 0 ready (programs k) ∷ (front ++ at n ready cs ∷ rest) })
        t
spawn-IsLinked {d} programs n k cs front rest l =
    let c = IsLinked-Counts front rest l in
    let c' : Counts (around d front rest) (at n ready cs) _ = record {
      opening_eq = c.opening_eq;
      opened_eq = c.opened_eq;
      waiting1_eq = c.waiting1_eq;
      woken1_eq = c.woken1_eq;
      waiting2_eq = c.waiting2_eq;
      woken2_eq = c.woken2_eq;
      locking_eq = c.locking_eq;
    } in
    let m = Counts-IsLinked front rest l.dev_eq c' in
    let o = m.opening_eq in
    let f = m.opened_eq in
    let w1 = m.waiting1_eq in
    let k1 = m.woken1_eq in
    let w2 = m.waiting2_eq in
    let k2 = m.woken2_eq in
    let lo = m.locking_eq in
    record {
      dev_eq = m.dev_eq;
      opening_eq = omega arith;
      opened_eq = omega arith;
      waiting1_eq = omega arith;
      woken1_eq = omega arith;
      waiting2_eq = omega arith;
      woken2_eq = omega arith;
      locking_eq = omega arith;
    }

-- What the threads reach, the processes reach.
pub record Processes (s : State) : Type 0 where
  pub system : System.System
  pub reach : System.Reach System.start system
  pub linked : IsLinked s system

Step-Processes : (programs : Programs) {s t : State} → Step programs s t → Processes s → Processes t
Step-Processes programs (act {d} {e} {v} {w} front rest a) p =
    let l = p.linked in
    let here : Act p.system.dev v e w = subst (λ x. Act x v e w) (sym l.dev_eq) a in
    let after = Act-After (IsLinked-Counts front rest l) here in
    record {
      system = after.state;
      reach = System.next p.reach after.step;
      linked = Counts-IsLinked front rest after.dev after.counts;
    }
Step-Processes programs (spawn n k cs front rest) p = record {
  system = p.system;
  reach = p.reach;
  linked = spawn-IsLinked programs n k cs front rest p.linked;
}

-- Every state of the threads of a program is one that processes of System reach, with the same device,
-- and with as many of them in each place as the threads have files there.
pub threads-Processes :
    (programs : Programs) (main : List Call) {s : State}
    → Reach programs (begin main) s
    → (t : System.System) × System.Reach System.start t × IsLinked s t
threads-Processes programs main r = let p = go r in (p.system, p.reach, p.linked)
  where
    go : {s : State} → Reach programs (begin main) s → Processes s
    go here = record {
      system = System.start;
      reach = System.here;
      linked = record {
        dev_eq = refl;
        opening_eq = refl;
        opened_eq = refl;
        waiting1_eq = refl;
        woken1_eq = refl;
        waiting2_eq = refl;
        woken2_eq = refl;
        locking_eq = refl;
      };
    }
    go (next r st) = Step-Processes programs st (go r)
