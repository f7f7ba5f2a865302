-- ===== src/ModeDriver/Cases.antt =====
-- The programs Assignment6/case1.cpp to case4.cpp: threads that call the device of assignment6.c in
-- an order of their own. A thread is told by the calls that it has still to make.
pub mod Asleep
pub mod Counts
pub mod Kept
mod Tests
pub mod Endless
use advanced_systems_program.Prelude.{ℕ, zero, suc, ◌-◌, ◌<◌, ◌≡◌, true, false, List, [], ◌∷◌, ◌++◌}
use advanced_systems_program.ModeDriver.Device.{
  Device, initial, e2_open_section, takes_sem2, e2_release, done, wait, lock, ioctl_mode1,
  ioctl_mode2, switch_to_mode1, switch_to_mode2, finish_mode1,
}

pub data Call : Type 0 where
  open_device : Call
  to_mode1 : Call  -- `ioctl(fd, E2_IOCMODE1, 0)`
  to_mode2 : Call
  close_device : Call
  create : ℕ → Call  -- `pthread_create` of the program with this number

pub data Place : Type 0 where
  ready : Place  -- in no call
  opening : Place  -- in `e2_open`, before `down(&sem2)`
  waiting1 : Place  -- in E2_IOCMODE2, asleep on `queue1`
  woken1 : Place
  waiting2 : Place  -- in E2_IOCMODE1, asleep on `queue2`
  woken2 : Place
  locking : Place  -- in E2_IOCMODE1, before `down(&sem2)`, with `sem1` held

-- The number of open files on which the thread is in no call, its place, and the calls that follow.
pub data Thread : Type 0 where
  at : ℕ → Place → List Call → Thread

-- What a thread does to the device.
pub data Act (d : Device) : Thread → Device → Thread → Type 0 where
  open_waits :
      {n : ℕ} {cs : List Call}
      → 0 < d.sem1
      → takes_sem2 d.mode ≡ true
      → Act d (at n ready (open_device ∷ cs)) (e2_open_section d) (at n opening cs)
  open_returns :
      {n : ℕ} {cs : List Call}
      → 0 < d.sem1
      → takes_sem2 d.mode ≡ false
      → Act d (at n ready (open_device ∷ cs)) (e2_open_section d) (at (suc n) ready cs)
  open_enters :
      {n : ℕ} {cs : List Call}
      → 0 < d.sem2
      → Act d (at n opening cs) (record d { sem2 = d.sem2 - 1 }) (at (suc n) ready cs)
  release :
      {n : ℕ} {cs : List Call}
      → 0 < d.sem1
      → Act d (at (suc n) ready (close_device ∷ cs)) (e2_release d) (at n ready cs)
  mode2_done :
      {n : ℕ} {cs : List Call} {e : Device}
      → 0 < d.sem1
      → ioctl_mode2 d ≡ done e
      → Act d (at (suc n) ready (to_mode2 ∷ cs)) e (at (suc n) ready cs)
  mode2_waits :
      {n : ℕ} {cs : List Call}
      → 0 < d.sem1
      → ioctl_mode2 d ≡ wait
      → Act d (at (suc n) ready (to_mode2 ∷ cs)) d (at n waiting1 cs)
  mode2_wakes :
      {n : ℕ} {cs : List Call} → d.count1 ≡ 1 → Act d (at n waiting1 cs) d (at n woken1 cs)
  mode2_switches :
      {n : ℕ} {cs : List Call} {e : Device}
      → 0 < d.sem1
      → switch_to_mode2 d ≡ done e
      → Act d (at n woken1 cs) e (at (suc n) ready cs)
  mode2_again :
      {n : ℕ} {cs : List Call}
      → 0 < d.sem1
      → switch_to_mode2 d ≡ wait
      → Act d (at n woken1 cs) d (at n waiting1 cs)
  mode1_done :
      {n : ℕ} {cs : List Call} {e : Device}
      → 0 < d.sem1
      → ioctl_mode1 d ≡ done e
      → Act d (at (suc n) ready (to_mode1 ∷ cs)) e (at (suc n) ready cs)
  mode1_waits :
      {n : ℕ} {cs : List Call}
      → 0 < d.sem1
      → ioctl_mode1 d ≡ wait
      → Act d (at (suc n) ready (to_mode1 ∷ cs)) d (at n waiting2 cs)
  mode1_locks :
      {n : ℕ} {cs : List Call} {e : Device}
      → 0 < d.sem1
      → ioctl_mode1 d ≡ lock e
      → Act d (at (suc n) ready (to_mode1 ∷ cs)) e (at n locking cs)
  mode1_wakes :
      {n : ℕ} {cs : List Call} → d.count2 ≡ 1 → Act d (at n waiting2 cs) d (at n woken2 cs)
  mode1_relocks :
      {n : ℕ} {cs : List Call} {e : Device}
      → 0 < d.sem1
      → switch_to_mode1 d ≡ lock e
      → Act d (at n woken2 cs) e (at n locking cs)
  mode1_again :
      {n : ℕ} {cs : List Call}
      → 0 < d.sem1
      → switch_to_mode1 d ≡ wait
      → Act d (at n woken2 cs) d (at n waiting2 cs)
  mode1_finishes :
      {n : ℕ} {cs : List Call}
      → 0 < d.sem2
      → Act d (at n locking cs) (finish_mode1 d) (at (suc n) ready cs)

pub record State : Type 0 where
  pub dev : Device
  pub threads : List Thread

-- The programs that a thread can be created with.
abbrev pub Programs : Type 0
Programs = ℕ → List Call

-- A step is one of a thread, or the creation of a thread.
pub data Step (programs : Programs) : State → State → Type 0 where
  act :
      {d e : Device} {v w : Thread} (front rest : List Thread)
      → Act d v e w
      → Step programs
          (record { dev = d; threads = front ++ v ∷ rest })
          (record { dev = e; threads = front ++ w ∷ rest })
  spawn :
      {d : Device} (n k : ℕ) (cs : List Call) (front rest : List Thread)
      → Step programs
          (record { dev = d; threads = front ++ at n ready (create k ∷ cs) ∷ rest })
          (record { dev = d; threads = at 0 ready (programs k) ∷ (front ++ at n ready cs ∷ rest) })

-- A freshly loaded device and the thread of `main`.
abbrev pub begin : List Call → State
begin main = record { dev = initial; threads = at 0 ready main ∷ [] }

-- The states that lie ahead of `s`.
pub data Reach (programs : Programs) (s : State) : State → Type 0 where
  here : Reach programs s s
  next : {t u : State} → Reach programs s t → Step programs t u → Reach programs s u

-- case1.cpp
abbrev pub programs1 : Programs
programs1 k = open_device ∷ open_device ∷ open_device ∷ []

abbrev pub main1 : List Call
main1 = create 0 ∷ create 0 ∷ []

-- case2.cpp
abbrev pub programs2 : Programs
programs2 k = open_device ∷ to_mode2 ∷ []

abbrev pub main2 : List Call
main2 = create 0 ∷ create 0 ∷ []

-- case3.cpp: `thread1` and `thread2`
abbrev pub programs3 : Programs
programs3 zero = open_device ∷ to_mode2 ∷ to_mode1 ∷ []
programs3 (suc k) = open_device ∷ to_mode1 ∷ []

abbrev pub main3 : List Call
main3 = create 0 ∷ create 1 ∷ []

-- case4.cpp
abbrev pub programs4 : Programs
programs4 k = open_device ∷ to_mode1 ∷ close_device ∷ []

abbrev pub main4 : List Call
main4 = open_device ∷ to_mode2 ∷ create 0 ∷ create 0 ∷ create 0 ∷ create 0 ∷ create 0 ∷ []
