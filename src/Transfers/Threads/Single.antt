-- ===== src/Transfers/Threads/Single.antt =====
-- With one permit in `SemTransfers` the threads make each transfer once, from the last to the first.
use advanced_systems_program.Prelude.{
  ℕ, zero, suc, ◌+◌, ◌≡◌, inl, inr, refl, sym, ap, ◌∙◌, Bool, true, false, none, some, List, [],
  ◌∷◌, ◌++◌, get_elem?, set, arith, if◌then◌else◌, Bool-cases, drop,
}
use advanced_systems_program.Transfers.{Account, Transfer, get_account_index}
use advanced_systems_program.Transfers.Threads.{
  credit, debit, with_money, storing, storing2, Worker, looping, entering, testing, taking, popping,
  locking, locking2, paying, paying2, posting2, posting, leaving, finished,
}

-- A change of the account at a position.
abbrev pub change_at : (Account → Account) → ℕ → List Account → List Account
change_at f i [] = []
change_at f zero (x ∷ xs) = f x ∷ xs
change_at f (suc i) (x ∷ xs) = x ∷ change_at f i xs

-- One transfer, made without interruption.
unfoldable pub apply : Transfer → List Account → List Account
apply t xs = elim (get_account_index t.to_id xs) [
  | none ↦ xs
  | some i ↦ elim (get_account_index t.from_id xs) [
    | none ↦ xs
    | some j ↦ change_at (debit t.amount) j (change_at (credit t.amount) i xs)
  ]
]

-- All of them, in the order of the list.
unfoldable pub apply_all : List Transfer → List Account → List Account
apply_all [] xs = xs
apply_all (t ∷ ts) xs = apply_all ts (apply t xs)

pub set-change_at :
    (f : Account → Account) (xs : List Account) (i : ℕ) {a : Account}
    → get_elem? xs i ≡ some a
    → set xs i (f a) ≡ change_at f i xs
set-change_at f [] i h = refl
set-change_at f (x ∷ xs) zero {a} h = let same : a ≡ x = ground arith in ap (λ b. f b ∷ xs) same
set-change_at f (x ∷ xs) (suc i) h = ap (◌∷◌ x) (set-change_at f xs i h)

-- To store what was just read is to store what is there.
pub change_at-with_money :
    (f : Account → Account) (xs : List Account) (i : ℕ) {a : Account}
    → get_elem? xs i ≡ some a
    → change_at (λ b. f (with_money a.money b)) i xs ≡ change_at f i xs
change_at-with_money f [] i h = refl
change_at-with_money f (x ∷ xs) zero {a} h =
    let same : a ≡ x = ground arith in ap (λ y. f (with_money y.money x) ∷ xs) same
change_at-with_money f (x ∷ xs) (suc i) h = ap (◌∷◌ x) (change_at-with_money f xs i h)

-- The balances when a thread has made what it has begun and the rest follows.
abbrev pub outcome : Worker → List Transfer → List Account → List Account
outcome (popping t) ts xs = apply_all (drop 1 ts) (apply t xs)
outcome (locking t i j) ts xs =
    apply_all ts (change_at (debit t.amount) j (change_at (credit t.amount) i xs))
outcome (locking2 t i j) ts xs =
    apply_all ts (change_at (debit t.amount) j (change_at (credit t.amount) i xs))
outcome (paying t i j) ts xs =
    apply_all ts (change_at (debit t.amount) j (change_at (credit t.amount) i xs))
outcome (storing t i j m) ts xs =
    apply_all ts
      (change_at (debit t.amount) j (change_at (λ a. credit t.amount (with_money m a)) i xs))
outcome (storing2 t i j m) ts xs =
    apply_all ts (change_at (λ a. debit t.amount (with_money m a)) j xs)
outcome (paying2 t i j) ts xs = apply_all ts (change_at (debit t.amount) j xs)
outcome looping ts xs = apply_all ts xs
outcome entering ts xs = apply_all ts xs
outcome testing ts xs = apply_all ts xs
outcome taking ts xs = apply_all ts xs
outcome (posting2 i j) ts xs = apply_all ts xs
outcome (posting i) ts xs = apply_all ts xs
outcome leaving ts xs = apply_all ts xs
outcome finished ts xs = apply_all ts xs

-- Between the two calls on `SemTransfers`.
abbrev pub is_inside : Worker → Bool
is_inside looping = false
is_inside entering = false
is_inside finished = false
is_inside _ = true

abbrev pub is_finished : Worker → Bool
is_finished finished = true
is_finished _ = false

abbrev pub weight : Worker → ℕ
weight w = if is_inside w then 1 else 0

abbrev pub inside : List Worker → ℕ
inside [] = 0
inside (w ∷ ws) = weight w + inside ws

-- The balances that the thread inside leads to, if there is one.
abbrev pub outcome_all : List Worker → List Transfer → List Account → List Account
outcome_all [] ts xs = apply_all ts xs
outcome_all (w ∷ ws) ts xs = if is_inside w then outcome w ts xs else outcome_all ws ts xs

pub inside-append :
    (front : List Worker) (w : Worker) (rest : List Worker)
    → inside (front ++ w ∷ rest) ≡ weight w + (inside front + inside rest)
inside-append [] w rest = omega arith
inside-append (f ∷ front) w rest = omega (arith, inside-append front w rest)

outside-weight : (w : Worker) → weight w ≡ 0 → is_inside w ≡ false
outside-weight w h = ground arith

pub outcome-outside :
    (w : Worker) (ts : List Transfer) (xs : List Account)
    → is_inside w ≡ false
    → outcome w ts xs ≡ apply_all ts xs
outcome-outside looping ts xs h = refl
outcome-outside entering ts xs h = refl
outcome-outside finished ts xs h = refl
outcome-outside testing ts xs h = absurd (ground arith)
outcome-outside taking ts xs h = absurd (ground arith)
outcome-outside (popping t) ts xs h = absurd (ground arith)
outcome-outside (locking t i j) ts xs h = absurd (ground arith)
outcome-outside (locking2 t i j) ts xs h = absurd (ground arith)
outcome-outside (paying t i j) ts xs h = absurd (ground arith)
outcome-outside (storing t i j m) ts xs h = absurd (ground arith)
outcome-outside (storing2 t i j m) ts xs h = absurd (ground arith)
outcome-outside (paying2 t i j) ts xs h = absurd (ground arith)
outcome-outside (posting2 i j) ts xs h = absurd (ground arith)
outcome-outside (posting i) ts xs h = absurd (ground arith)
outcome-outside leaving ts xs h = absurd (ground arith)

pub outcome_all-idle :
    (ws : List Worker) (ts : List Transfer) (xs : List Account)
    → inside ws ≡ 0
    → outcome_all ws ts xs ≡ apply_all ts xs
outcome_all-idle [] ts xs h = refl
outcome_all-idle (w ∷ ws) ts xs h =
    rw (outside-weight w (omega arith)) (outcome_all-idle ws ts xs (omega arith))

-- When no other thread is inside, one thread decides the outcome.
pub outcome_all-alone :
    (front : List Worker) (w : Worker) (rest : List Worker) (ts : List Transfer) (xs : List Account)
    → inside front + inside rest ≡ 0
    → outcome_all (front ++ w ∷ rest) ts xs ≡ outcome w ts xs
outcome_all-alone [] w rest ts xs h = elim (Bool-cases (is_inside w)) [
  | inl e ↦ rw e refl
  | inr e ↦ rw e (outcome_all-idle rest ts xs (omega arith) ∙ sym (outcome-outside w ts xs e))
]
outcome_all-alone (f ∷ front) w rest ts xs h =
    rw (outside-weight f (omega arith)) (outcome_all-alone front w rest ts xs (omega arith))

pub outcome_all-outside :
    (front : List Worker) (v w : Worker) (rest : List Worker) (ts : List Transfer)
    (xs : List Account)
    → is_inside v ≡ false
    → is_inside w ≡ false
    → outcome_all (front ++ v ∷ rest) ts xs ≡ outcome_all (front ++ w ∷ rest) ts xs
outcome_all-outside [] v w rest ts xs h k = rw (h, k) refl
outcome_all-outside (f ∷ front) v w rest ts xs h k = elim (Bool-cases (is_inside f)) [
  | inl e ↦ rw e refl
  | inr e ↦ rw e (outcome_all-outside front v w rest ts xs h k)
]
