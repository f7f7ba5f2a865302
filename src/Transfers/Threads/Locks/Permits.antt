-- ===== src/Transfers/Threads/Locks/Permits.antt =====
-- The permits of the semaphores `mSem` of eft.cpp that are left, and those that threads hold.
use advanced_systems_program.Prelude.{
  ℕ, zero, suc, ◌+◌, ◌*◌, ◌≡◌, refl, some, List, [], ◌∷◌, ◌++◌, get_elem?, get_or, set, arith,
  replicate, ◌==◌, if◌then◌else◌,
}
use advanced_systems_program.Transfers.Threads.{
  Shared, Worker, looping, entering, testing, taking, popping, locking, locking2, paying, storing,
  paying2, storing2, posting2, posting, leaving, finished, Act, go_on, stop, enter, nothing,
  something, back, back_empty, pop, pop_empty, exit_bad, lock, lock2, load, pay, load2, pay2, post2,
  post, leave,
}

-- How many permits of the semaphore `k` a thread holds.
abbrev pub one_if : ℕ → ℕ → ℕ
one_if k i = if k == i then 1 else 0

abbrev pub holds : ℕ → Worker → ℕ
holds k (locking2 t i j) = one_if k i
holds k (paying t i j) = one_if k i + one_if k j
holds k (storing t i j m) = one_if k i + one_if k j
holds k (paying2 t i j) = one_if k i + one_if k j
holds k (storing2 t i j m) = one_if k i + one_if k j
holds k (posting2 i j) = one_if k i + one_if k j
holds k (posting i) = one_if k i
holds k looping = 0
holds k entering = 0
holds k testing = 0
holds k taking = 0
holds k (popping t) = 0
holds k (locking t i j) = 0
holds k leaving = 0
holds k finished = 0

abbrev pub all_hold : ℕ → List Worker → ℕ
all_hold k [] = 0
all_hold k (w ∷ ws) = holds k w + all_hold k ws

pub all_hold-append :
    (k : ℕ) (front : List Worker) (w : Worker) (rest : List Worker)
    → all_hold k (front ++ w ∷ rest) ≡ holds k w + (all_hold k front + all_hold k rest)
all_hold-append k [] w rest = omega arith
all_hold-append k (f ∷ front) w rest = omega (arith, all_hold-append k front w rest)

-- The permits that are left, one for an index without an account.
abbrev pub permits : List ℕ → ℕ → ℕ
permits sems k = get_or sems k 1

permits-set :
    (sems : List ℕ) (i k u v : ℕ)
    → get_elem? sems i ≡ some u
    → permits (set sems i v) k + one_if k i * u ≡ permits sems k + one_if k i * v
permits-set [] i k u v h = absurd (ground arith)
permits-set (x ∷ sems) zero zero u v h = ground arith
permits-set (x ∷ sems) zero (suc k) u v h = ground arith
permits-set (x ∷ sems) (suc i) zero u v h = ground arith
permits-set (x ∷ sems) (suc i) (suc k) u v h = ground (arith, permits-set sems i k u v h)

pub Act-permits :
    {s t : Shared} {v w : Worker} (k : ℕ)
    → Act s v t w
    → permits t.sems k + holds k w ≡ permits s.sems k + holds k v
Act-permits k (go_on n) = refl
Act-permits k (stop n) = refl
Act-permits k (enter p) = refl
Act-permits k (nothing n) = refl
Act-permits k (something n) = refl
Act-permits k (back n) = refl
Act-permits k (back_empty n) = refl
Act-permits k (pop n i j) = refl
Act-permits k (pop_empty n) = refl
Act-permits k (exit_bad e n) = refl
Act-permits {s} k (lock {t} {i} {j} {v} at) =
    let e = permits-set s.sems i k (suc v) v at in ground arith
Act-permits {s} k (lock2 {t} {i} {j} {v} at) =
    let e = permits-set s.sems j k (suc v) v at in ground arith
Act-permits k (load at) = refl
Act-permits k (pay at) = refl
Act-permits k (load2 at) = refl
Act-permits k (pay2 at) = refl
Act-permits {s} k (post2 {i} {j} {v} at) =
    let e = permits-set s.sems j k v (suc v) at in ground arith
Act-permits {s} k (post {i} {v} at) = let e = permits-set s.sems i k v (suc v) at in ground arith
Act-permits k leave = refl

pub permits-start : (n k : ℕ) → permits (replicate n 1) k ≡ 1
permits-start zero k = refl
permits-start (suc n) zero = refl
permits-start (suc n) (suc k) = permits-start n k

pub idle-all_hold : (n k : ℕ) → all_hold k (replicate n looping) ≡ 0
idle-all_hold zero k = refl
idle-all_hold (suc n) k = omega (arith, idle-all_hold n k)
