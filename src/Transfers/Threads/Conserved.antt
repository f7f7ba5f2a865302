-- ===== src/Transfers/Threads/Conserved.antt =====
-- The threads create no money and destroy none.
use advanced_systems_program.Prelude.{
  ℕ, zero, suc, ◌+◌, ◌-◌, ◌%◌, ◌^◌, ◌≡◌, refl, sym, ap, ◌∙◌, some, List, [], ◌∷◌, ◌++◌, get_elem?,
  set, arith, replicate,
}
use advanced_systems_program.Transfers.{Account, Input}
use advanced_systems_program.Transfers.Threads.{
  credit, debit, with_money, Shared, Worker, looping, entering, testing, taking, popping, locking,
  locking2, paying, storing, paying2, storing2, posting2, posting, leaving, finished, Act, go_on,
  stop, enter, nothing, something, back, back_empty, pop, pop_empty, exit_bad, lock, lock2, load,
  pay, load2, pay2, post2, post, leave, System, Step, step, start, Reach, here, next,
}
use advanced_systems_program.Transfers.Threads.Locks.{IsCurrent, Reach-IsCurrent}

-- The sum of all balances.
unfoldable pub total : List Account → ℕ
total [] = 0
total (a ∷ rest) = a.money + total rest

-- What a thread has paid in and not yet taken out.
abbrev pub in_transit : Worker → ℕ
in_transit (paying2 t i j) = t.amount
in_transit (storing2 t i j m) = t.amount
in_transit looping = 0
in_transit entering = 0
in_transit testing = 0
in_transit taking = 0
in_transit (popping t) = 0
in_transit (locking t i j) = 0
in_transit (locking2 t i j) = 0
in_transit (paying t i j) = 0
in_transit (storing t i j m) = 0
in_transit (posting2 i j) = 0
in_transit (posting i) = 0
in_transit leaving = 0
in_transit finished = 0

unfoldable pub all_in_transit : List Worker → ℕ
all_in_transit [] = 0
all_in_transit (w ∷ ws) = in_transit w + all_in_transit ws

all_in_transit-append :
    (front : List Worker) (w : Worker) (rest : List Worker)
    → all_in_transit (front ++ w ∷ rest)
      ≡ in_transit w + (all_in_transit front + all_in_transit rest)
unfolding all_in_transit
all_in_transit-append [] w rest = omega arith
all_in_transit-append (f ∷ front) w rest = omega (arith, all_in_transit-append front w rest)

total-set :
    (xs : List Account) (i : ℕ) {a : Account} (b : Account)
    → get_elem? xs i ≡ some a
    → total (set xs i b) + a.money ≡ total xs + b.money
unfolding total
total-set [] i b h = absurd (ground arith)
total-set (x ∷ xs) zero {a} b h = let same : x.money ≡ a.money = ground arith in omega arith
total-set (x ∷ xs) (suc i) b h = omega (arith, total-set xs i b h)

abbrev Balance : ℕ → ℕ → ℕ → Type 0
Balance money transit sum = money % 2 ^ 32 ≡ (sum + transit) % 2 ^ 32

credit-Balance :
    (m0 m1 a amount others sum : ℕ)
    → m1 + a ≡ m0 + (a + amount) % 2 ^ 32
    → Balance m0 others sum
    → Balance m1 (amount + others) sum
credit-Balance m0 m1 a amount others sum e h = omega arith

debit-Balance :
    (m0 m1 a amount others sum : ℕ)
    → m1 + a ≡ m0 + (a + (2 ^ 32 - amount % 2 ^ 32)) % 2 ^ 32
    → Balance m0 (amount + others) sum
    → Balance m1 (0 + others) sum
debit-Balance m0 m1 a amount others sum e h = omega arith

Act-Balance :
    {s t : Shared} {v w : Worker} (others sum : ℕ)
    → IsCurrent s.accounts v
    → Balance (total s.accounts) (in_transit v + others) sum
    → Act s v t w
    → Balance (total t.accounts) (in_transit w + others) sum
Act-Balance others sum c h (go_on n) = h
Act-Balance others sum c h (stop n) = h
Act-Balance others sum c h (enter p) = h
Act-Balance others sum c h (nothing n) = h
Act-Balance others sum c h (something n) = h
Act-Balance others sum c h (back n) = h
Act-Balance others sum c h (back_empty n) = h
Act-Balance others sum c h (pop n i j) = h
Act-Balance others sum c h (pop_empty n) = h
Act-Balance others sum c h (exit_bad e n) = h
Act-Balance others sum c h (lock v) = h
Act-Balance others sum c h (lock2 v) = h
Act-Balance others sum c h (load at) = h
Act-Balance {s} others sum c h (pay {t} {i} {j} {m} {a} at) =
    let read : a.money ≡ m = c a at in
    let e = total-set s.accounts i (credit t.amount (with_money m a)) at in
    credit-Balance (total s.accounts) _ m t.amount others sum (omega arith) (omega arith)
Act-Balance others sum c h (load2 at) = h
Act-Balance {s} others sum c h (pay2 {t} {i} {j} {m} {a} at) =
    let read : a.money ≡ m = c a at in
    let e = total-set s.accounts j (debit t.amount (with_money m a)) at in
    debit-Balance (total s.accounts) _ m t.amount others sum (omega arith) h
Act-Balance others sum c h (post2 v) = h
Act-Balance others sum c h (post v) = h
Act-Balance others sum c h leave = h

Step-Balance :
    (n : ℕ) (input : Input) (sum : ℕ) {s t : System}
    → Reach (start n input) s
    → Step s t
    → Balance (total s.shared.accounts) (all_in_transit s.workers) sum
    → Balance (total t.shared.accounts) (all_in_transit t.workers) sum
Step-Balance n input sum r (step {s} {t} {v} {w} front rest p a) h =
    let others = all_in_transit front + all_in_transit rest in
    let before : Balance (total s.accounts) (in_transit v + others) sum =
      h ∙ ap (λ k. (sum + k) % 2 ^ 32) (all_in_transit-append front v rest) in
    Act-Balance others sum (Reach-IsCurrent n input front v rest r refl) before a
    ∙ ap (λ k. (sum + k) % 2 ^ 32) (sym (all_in_transit-append front w rest))

idle-in_transit : (n : ℕ) → all_in_transit (replicate n looping) ≡ 0
unfolding all_in_transit
idle-in_transit zero = refl
idle-in_transit (suc n) = omega (arith, idle-in_transit n)

-- With any number of threads and any interleaving, the sum of the balances is the sum at the start
-- and what threads have paid in and not yet taken out, modulo 2^32.
pub total-conserved :
    (n : ℕ) (input : Input) {s : System}
    → Reach (start n input) s
    → total s.shared.accounts % 2 ^ 32 ≡ (total input.accounts + all_in_transit s.workers) % 2 ^ 32
total-conserved n input here = omega (arith, idle-in_transit n)
total-conserved n input (next r st) =
    Step-Balance n input (total input.accounts) r st (total-conserved n input r)
