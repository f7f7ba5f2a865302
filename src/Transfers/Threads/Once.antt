-- ===== src/Transfers/Threads/Once.antt =====
-- The balances that one or two threads end with.
use advanced_systems_program.Prelude.{
  ℕ, zero, suc, ◌+◌, ◌≡◌, ◌⊎◌, inl, inr, refl, sym, ap, ◌∙◌, true, false, some, List, [], ◌∷◌, ◌++◌,
  arith, replicate, any,
}
use advanced_systems_program.Transfers.{Account, Transfer, Input, counts, get_account_index}
use advanced_systems_program.Transfers.Threads.{
  credit, debit, with_money, running, Shared, Worker, looping, finished, Act, go_on, stop, enter,
  nothing, something, back, back_empty, pop, pop_empty, exit_bad, lock, lock2, load, pay, load2,
  pay2, post2, post, leave, System, Step, step, start, Reach, here, next,
}
use advanced_systems_program.Transfers.Threads.Single.{
  change_at, apply, apply_all, set-change_at, change_at-with_money, outcome, is_inside, is_finished,
  weight, inside, outcome_all, inside-append, outcome_all-idle, outcome_all-alone,
  outcome_all-outside,
}

apply-found :
    (t : Transfer) (xs : List Account) {i j : ℕ}
    → get_account_index t.to_id xs ≡ some i
    → get_account_index t.from_id xs ≡ some j
    → apply t xs ≡ change_at (debit t.amount) j (change_at (credit t.amount) i xs)
unfolding apply
apply-found t xs h k = rw (apply, h) (rw k refl)

Act-outcome :
    {s t : Shared} {v w : Worker}
    → t.phase ≡ running
    → Act s v t w
    → outcome w t.transfers t.accounts ≡ outcome v s.transfers s.accounts
unfolding apply_all
Act-outcome r (go_on n) = refl
Act-outcome r (stop n) = refl
Act-outcome r (enter p) = refl
Act-outcome r (nothing n) = refl
Act-outcome r (something n) = refl
Act-outcome {s} r (back {t} {ts} e) = rw e refl
Act-outcome r (back_empty n) = absurd (ground arith)
Act-outcome {s} r (pop {t} {u} {us} {i} {j} e h k) = rw (e, apply-found t s.accounts h k) refl
Act-outcome r (pop_empty n) = absurd (ground arith)
Act-outcome r (exit_bad e n) = absurd (ground arith)
Act-outcome r (lock v) = refl
Act-outcome r (lock2 v) = refl
Act-outcome {s} r (load {t} {i} {j} {a} at) =
    ap (λ xs. apply_all s.transfers (change_at (debit t.amount) j xs))
      (change_at-with_money (credit t.amount) s.accounts i at)
Act-outcome {s} r (pay {t} {i} {j} {m} {a} at) =
    ap (λ xs. apply_all s.transfers (change_at (debit t.amount) j xs))
      (set-change_at (λ b. credit t.amount (with_money m b)) s.accounts i at)
Act-outcome {s} r (load2 {t} {i} {j} {a} at) =
    ap (apply_all s.transfers) (change_at-with_money (debit t.amount) s.accounts j at)
Act-outcome {s} r (pay2 {t} {i} {j} {m} {a} at) =
    ap (apply_all s.transfers)
      (set-change_at (λ b. debit t.amount (with_money m b)) s.accounts j at)
Act-outcome r (post2 v) = refl
Act-outcome r (post v) = refl
Act-outcome r leave = refl

-- An access either stays outside and changes nothing, or is made while no other thread is inside.
abbrev Quiet : Shared → Worker → Shared → Worker → Type 0
Quiet s v t w =
    (is_inside v ≡ false)
    × (is_inside w ≡ false)
    × (t.transfers ≡ s.transfers)
    × (t.accounts ≡ s.accounts)

Act-alone :
    {s t : Shared} {v w : Worker} (others : ℕ)
    → s.sem_transfers + (weight v + others) ≡ 1
    → Act s v t w
    → Quiet s v t w ⊎ (others ≡ 0)
Act-alone others h (go_on n) = inl (refl, refl, refl, refl)
Act-alone others h (stop n) = inl (refl, refl, refl, refl)
Act-alone others h (enter p) = inr (omega arith)
Act-alone others h (nothing n) = inr (omega arith)
Act-alone others h (something n) = inr (omega arith)
Act-alone others h (back n) = inr (omega arith)
Act-alone others h (back_empty n) = inr (omega arith)
Act-alone others h (pop n i j) = inr (omega arith)
Act-alone others h (pop_empty n) = inr (omega arith)
Act-alone others h (exit_bad e n) = inr (omega arith)
Act-alone others h (lock v) = inr (omega arith)
Act-alone others h (lock2 v) = inr (omega arith)
Act-alone others h (load at) = inr (omega arith)
Act-alone others h (pay at) = inr (omega arith)
Act-alone others h (load2 at) = inr (omega arith)
Act-alone others h (pay2 at) = inr (omega arith)
Act-alone others h (post2 v) = inr (omega arith)
Act-alone others h (post v) = inr (omega arith)
Act-alone others h leave = inr (omega arith)

-- What an access keeps true of the permits and of the end of the work.
record Kept (s : Shared) (v : Worker) (t : Shared) (w : Worker) : Type 0 where
  permits : t.sem_transfers + weight w ≡ s.sem_transfers + weight v
  empty : s.transfers ≡ [] → t.transfers ≡ []
  over : is_finished w ≡ true → t.transfers ≡ []

none_over : {ts : List Transfer} → false ≡ true → ts ≡ []
none_over h = absurd (ground arith)

Act-Kept : {s t : Shared} {v w : Worker} → t.phase ≡ running → Act s v t w → Kept s v t w
Act-Kept r (go_on n) = record { permits = refl; empty = λ e. e; over = none_over }
Act-Kept r (stop n) = record { permits = refl; empty = λ e. e; over = λ o. n }
Act-Kept r (enter p) = record { permits = omega arith; empty = λ e. e; over = none_over }
Act-Kept r (nothing n) = record { permits = refl; empty = λ e. e; over = none_over }
Act-Kept r (something n) = record { permits = refl; empty = λ e. e; over = none_over }
Act-Kept r (back n) = record { permits = refl; empty = λ e. e; over = none_over }
Act-Kept r (back_empty n) = absurd (ground arith)
Act-Kept r (pop n i j) = record {
  permits = refl;
  empty = λ e. absurd (ground arith);
  over = none_over;
}
Act-Kept r (pop_empty n) = absurd (ground arith)
Act-Kept r (exit_bad e n) = absurd (ground arith)
Act-Kept r (lock v) = record { permits = refl; empty = λ e. e; over = none_over }
Act-Kept r (lock2 v) = record { permits = refl; empty = λ e. e; over = none_over }
Act-Kept r (load at) = record { permits = refl; empty = λ e. e; over = none_over }
Act-Kept r (load2 at) = record { permits = refl; empty = λ e. e; over = none_over }
Act-Kept r (pay at) = record { permits = refl; empty = λ e. e; over = none_over }
Act-Kept r (pay2 at) = record { permits = refl; empty = λ e. e; over = none_over }
Act-Kept r (post2 v) = record { permits = refl; empty = λ e. e; over = none_over }
Act-Kept r (post v) = record { permits = refl; empty = λ e. e; over = none_over }
Act-Kept r leave = record { permits = omega arith; empty = λ e. e; over = none_over }

record Inv (result : List Account) (s : System) : Type 0 where
  one : s.shared.sem_transfers + inside s.workers ≡ 1
  leads : outcome_all s.workers s.shared.transfers s.shared.accounts ≡ result
  over : any is_finished s.workers ≡ true → s.shared.transfers ≡ []

any-middle :
    (front : List Worker) (v w : Worker) (rest : List Worker)
    → any is_finished (front ++ w ∷ rest) ≡ true
    → (is_finished w ≡ true) ⊎ (any is_finished (front ++ v ∷ rest) ≡ true)
any-middle [] v w rest h = ground arith
any-middle (f ∷ front) v w rest h = ground (arith, any-middle front v w rest)

Act-Inv :
    (result : List Account) {s t : Shared} {v w : Worker} (front rest : List Worker)
    → t.phase ≡ running
    → Act s v t w
    → Inv result (record { shared = s; workers = front ++ v ∷ rest })
    → Inv result (record { shared = t; workers = front ++ w ∷ rest })
Act-Inv result {s} {t} {v} {w} front rest r a inv =
    let kept = Act-Kept r a in
    let permits = kept.permits in
    let one = inv.one in
    let before = inside-append front v rest in
    let after = inside-append front w rest in
    let leads : outcome_all (front ++ w ∷ rest) t.transfers t.accounts ≡ result =
      elim (Act-alone (inside front + inside rest) (omega arith) a) [
        | inl (iv, iw, ts, xs) ↦
            ap (λ l. outcome_all (front ++ w ∷ rest) l t.accounts) ts
            ∙ ap (outcome_all (front ++ w ∷ rest) s.transfers) xs
            ∙ outcome_all-outside front w v rest s.transfers s.accounts iw iv
            ∙ inv.leads
        | inr alone ↦
            outcome_all-alone front w rest t.transfers t.accounts alone
            ∙ Act-outcome r a
            ∙ sym (outcome_all-alone front v rest s.transfers s.accounts alone)
            ∙ inv.leads
      ] in
    record {
      one = omega arith;
      leads = leads;
      over = λ o. elim (any-middle front v w rest o) [
        | inl f ↦ kept.over f
        | inr f ↦ kept.empty (inv.over f)
      ];
    }

Step-Inv :
    (result : List Account) {s t : System}
    → t.shared.phase ≡ running
    → Step s t
    → Inv result s
    → Inv result t
Step-Inv result r (step front rest p a) inv = Act-Inv result front rest r a inv

Step-running : {s t : System} → Step s t → s.shared.phase ≡ running
Step-running (step front rest p a) = p

idle :
    (n : ℕ) → (inside (replicate n looping) ≡ 0) × (any is_finished (replicate n looping) ≡ false)
idle zero = (refl, refl)
idle (suc n) = let (i, f) = idle n in (omega arith, ground arith)

Reach-Inv :
    (n : ℕ) (input : Input) {s : System}
    → counts n ≡ 1
    → Reach (start n input) s
    → s.shared.phase ≡ running
    → Inv (apply_all input.transfers input.accounts) s
Reach-Inv n input c here p =
    let (i, f) = idle n in
    record {
      one = omega arith;
      leads = outcome_all-idle (replicate n looping) input.transfers input.accounts i;
      over = λ o. absurd (ground arith);
    }
Reach-Inv n input c (next r st) p =
    Step-Inv (apply_all input.transfers input.accounts) p st
      (Reach-Inv n input c r (Step-running st))

inside-finished : (n : ℕ) → inside (replicate n finished) ≡ 0
inside-finished zero = refl
inside-finished (suc n) = omega (arith, inside-finished n)

-- When all of the one or two threads have ended, and the program has neither called `exit` nor read
-- an empty vector, the balances are those of the transfers made one after another, the last one of
-- the file first.
pub finished-balances :
    (n : ℕ) (input : Input) {s : System}
    → counts n ≡ 1
    → Reach (start n input) s
    → s.shared.phase ≡ running
    → s.workers ≡ replicate n finished
    → s.shared.accounts ≡ apply_all input.transfers input.accounts
unfolding counts apply_all
finished-balances zero input c r p w = absurd (ground arith)
finished-balances (suc n) input {s} c r p w =
    let inv = Reach-Inv (suc n) input c r p in
    let done = inv.over (ap (any is_finished) w) in
    let none_in : inside s.workers ≡ 0 = ap inside w ∙ inside-finished (suc n) in
    ap (λ ts. apply_all ts s.shared.accounts) (sym done)
    ∙ sym (outcome_all-idle s.workers s.shared.transfers s.shared.accounts none_in)
    ∙ inv.leads
