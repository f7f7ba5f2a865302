-- ===== src/Transfers/Threads/Failures.antt =====
-- Two ways in which `SendMoney` goes wrong.
use advanced_systems_program.Prelude.{
  ℕ, zero, suc, ◌<◌, ◌≡◌, ◌≢◌, refl, ap, ◌∙◌, Option, none, some, List, [], ◌∷◌, ◌++◌, get_elem?,
  set, length, arith, replicate, length-replicate,
}
use advanced_systems_program.Transfers.{Transfer, Input, counts, get_account_index}
use advanced_systems_program.Transfers.Accounts.{get_account_index-found}
use advanced_systems_program.Transfers.Threads.{
  running, Shared, Worker, looping, popping, locking, locking2, Act, go_on, stop, enter, nothing,
  something, back, back_empty, pop, pop_empty, exit_bad, lock, lock2, load, pay, load2, pay2, post2,
  post, leave, System, Step, step, start, Reach, here, next,
}

-- The account whose semaphore a thread waits for, with its own transfer's other account locked.
abbrev second : Worker → Option ℕ
second (locking2 t i j) = some j
second _ = none

Act-second :
    {s t : Shared} {v w : Worker} {i : ℕ}
    → Act s v t w
    → second v ≡ some i
    → get_elem? s.sems i ≢ some 0
Act-second {s} {i = i} (lock2 {t} {i = k} {j} {v} e) h f =
    let same : j ≡ i = ground arith in ground (arith, ap (get_elem? s.sems) same)
Act-second (go_on n) h f = ground arith
Act-second (stop n) h f = ground arith
Act-second (enter p) h f = ground arith
Act-second (nothing n) h f = ground arith
Act-second (something n) h f = ground arith
Act-second (back n) h f = ground arith
Act-second (back_empty n) h f = ground arith
Act-second (pop n i j) h f = ground arith
Act-second (pop_empty n) h f = ground arith
Act-second (exit_bad e n) h f = ground arith
Act-second (lock v) h f = ground arith
Act-second (load at) h f = ground arith
Act-second (pay at) h f = ground arith
Act-second (load2 at) h f = ground arith
Act-second (pay2 at) h f = ground arith
Act-second (post2 v) h f = ground arith
Act-second (post v) h f = ground arith
Act-second leave h f = ground arith

only_one :
    (front : List Worker) (v w : Worker) (rest : List Worker) → front ++ v ∷ rest ≡ w ∷ [] → v ≡ w
only_one [] v w rest h = ground arith
only_one (f ∷ []) v w rest h = absurd (ground arith)
only_one (f ∷ g ∷ front) v w rest h = absurd (ground arith)

Step-stuck :
    {s u : System} {w : Worker} {i : ℕ}
    → Step s u
    → s.workers ≡ w ∷ []
    → second w ≡ some i
    → get_elem? s.shared.sems i ≢ some 0
Step-stuck {w = w} (step {s} {t} {v} front rest p a) h k =
    Act-second a (ap second (only_one front v w rest h) ∙ k)

get_elem?-replicate : (n i k : ℕ) → i < n → get_elem? (replicate n k) i ≡ some k
get_elem?-replicate zero i k h = absurd (omega arith)
get_elem?-replicate (suc n) zero k h = refl
get_elem?-replicate (suc n) (suc i) k h = get_elem?-replicate n i k (omega arith)

get_elem?-set : (xs : List ℕ) (i k : ℕ) → i < length xs → get_elem? (set xs i k) i ≡ some k
get_elem?-set [] i k h = absurd (omega arith)
get_elem?-set (x ∷ xs) zero k h = refl
get_elem?-set (x ∷ xs) (suc i) k h = get_elem?-set xs i k (omega arith)

within : (n i : ℕ) → i < n → i < length {A = ℕ} (replicate n 1)
within n i h = rw (length-replicate {A = ℕ} n 1) h

-- The thread waits for the semaphore that it has taken itself.
abbrev pub own_lock : Input → Transfer → List Transfer → ℕ → System
own_lock input t ts i = record {
  shared = record {
    phase = running;
    accounts = input.accounts;
    transfers = ts;
    sem_transfers = 0;
    sems = set (replicate (length input.accounts) 1) i 0;
  };
  workers = locking2 t i i ∷ [];
}

-- A transfer from an account to itself, taken by the only thread, waits twice for one semaphore: the
-- program reaches a state without a further step.
pub self_transfer-stuck :
    (input : Input) (t : Transfer) (ts : List Transfer) (i : ℕ)
    → input.transfers ≡ t ∷ ts
    → t.from_id ≡ t.to_id
    → get_account_index t.to_id input.accounts ≡ some i
    → Reach (start 1 input) (own_lock input t ts i)
      × ((u : System) → ¬ Step (own_lock input t ts i) u)
unfolding counts
self_transfer-stuck input t ts i e same h =
    let (a, at, is_id, lt) = get_account_index-found t.to_id i input.accounts h in
    let k = ap (λ id. get_account_index id input.accounts) same ∙ h in
    let free = get_elem?-replicate (length input.accounts) i 1 lt in
    let taken =
      get_elem?-set (replicate (length input.accounts) 1) i 0
        (within (length input.accounts) i lt) in
    let some_left : input.transfers ≢ [] = λ n. ground arith in
    let r1 = next {t = start 1 input} here (step [] [] refl (go_on some_left)) in
    let r2 = next r1 (step [] [] refl (enter (omega arith))) in
    let r3 = next r2 (step [] [] refl (something some_left)) in
    let r4 = next r3 (step [] [] refl (back e)) in
    let r5 = next r4 (step [] [] refl (pop e h k)) in
    (next r5 (step [] [] refl (lock free)), λ u st. Step-stuck st refl refl taken)

-- Two threads are about to make the same transfer.
abbrev pub both : Input → Transfer → List Transfer → ℕ → ℕ → System
both input t ts i j = record {
  shared = record {
    phase = running;
    accounts = input.accounts;
    transfers = ts;
    sem_transfers = 0;
    sems = replicate (length input.accounts) 1;
  };
  workers = locking t i j ∷ locking t i j ∷ looping ∷ [];
}

-- With three threads two are let in at once, and both may copy the same transfer before either takes
-- it off the vector: that transfer is made twice and the one before it in the file is lost.
transfer-twice :
    (input : Input) (t u : Transfer) (ts : List Transfer) (i j : ℕ)
    → input.transfers ≡ t ∷ u ∷ ts
    → get_account_index t.to_id input.accounts ≡ some i
    → get_account_index t.from_id input.accounts ≡ some j
    → Reach (start 3 input) (both input t ts i j)
unfolding counts
transfer-twice input t u ts i j e h k =
    let some_left : input.transfers ≢ [] = λ n. ground arith in
    let one = looping ∷ [] in
    let two = looping ∷ looping ∷ [] in
    let r1 = next {t = start 3 input} here (step [] two refl (go_on some_left)) in
    let r2 = next r1 (step [] two refl (enter (omega arith))) in
    let r3 = next r2 (step [] two refl (something some_left)) in
    let r4 = next r3 (step [] two refl (back e)) in
    let first = popping t ∷ [] in
    let r5 = next r4 (step first one refl (go_on some_left)) in
    let r6 = next r5 (step first one refl (enter (omega arith))) in
    let r7 = next r6 (step first one refl (something some_left)) in
    let r8 = next r7 (step first one refl (back e)) in
    let r9 = next r8 (step [] (popping t ∷ one) refl (pop e h k)) in
    next r9 (step (locking t i j ∷ []) one refl (pop refl h k))
