-- ===== src/Transfers/Threads/Locks.antt =====
-- The semaphores of the accounts: while a thread has read a balance and not yet stored the new one, no
-- other thread changes that account.
pub mod Permits
use advanced_systems_program.Prelude.{
  ℕ, zero, suc, ◌+◌, ◌*◌, ◌≤◌, ◌≡◌, ◌≢◌, ◌⊎◌, inl, inr, refl, sym, ap, ◌∙◌, some, List, [], ◌∷◌,
  ◌++◌, get_elem?, get_or, set, length, arith, replicate, ◌==◌, if◌then◌else◌, get_elem?-set_other,
}
use mathlib.Core.Path.{subst}
use advanced_systems_program.Transfers.{Account, Input}
use advanced_systems_program.Transfers.Threads.{
  credit, debit, with_money, Shared, Worker, looping, entering, testing, taking, popping, locking,
  locking2, paying, storing, paying2, storing2, posting2, posting, leaving, finished, Act, go_on,
  stop, enter, nothing, something, back, back_empty, pop, pop_empty, exit_bad, lock, lock2, load,
  pay, load2, pay2, post2, post, leave, System, Step, step, start, Reach, here, next,
}
use advanced_systems_program.Transfers.Threads.Locks.Permits.{
  one_if, holds, all_hold, permits, all_hold-append, Act-permits, permits-start, idle-all_hold,
}

-- The balance that a thread has read is still that of the account.
abbrev pub IsCurrent : List Account → Worker → Type 0
IsCurrent xs (storing t i j m) = (a : Account) → get_elem? xs i ≡ some a → a.money ≡ m
IsCurrent xs (storing2 t i j m) = (a : Account) → get_elem? xs j ≡ some a → a.money ≡ m
IsCurrent xs _ = Unit

abbrev AreCurrent : List Account → List Worker → Type 0
AreCurrent xs [] = Unit
AreCurrent xs (w ∷ ws) = IsCurrent xs w × AreCurrent xs ws

AreCurrent-apart :
    (xs : List Account) (front : List Worker) (w : Worker) (rest : List Worker)
    → AreCurrent xs (front ++ w ∷ rest)
    → AreCurrent xs front × IsCurrent xs w × AreCurrent xs rest
AreCurrent-apart xs [] w rest (c, cs) = (tt, c, cs)
AreCurrent-apart xs (f ∷ front) w rest (c, cs) =
    let (d, e, ds) = AreCurrent-apart xs front w rest cs in ((c, d), e, ds)

AreCurrent-append :
    (xs : List Account) (front : List Worker) (w : Worker) (rest : List Worker)
    → AreCurrent xs front
    → IsCurrent xs w
    → AreCurrent xs rest
    → AreCurrent xs (front ++ w ∷ rest)
AreCurrent-append xs [] w rest cs c ds = (c, ds)
AreCurrent-append xs (f ∷ front) w rest (b, cs) c ds =
    (b, AreCurrent-append xs front w rest cs c ds)

IsCurrent-set :
    (xs : List Account) (k : ℕ) (b : Account) (w : Worker)
    → holds k w ≡ 0
    → IsCurrent xs w
    → IsCurrent (set xs k b) w
IsCurrent-set xs k b (storing t i j m) h c =
    λ a e. c a (sym (get_elem?-set_other xs k i b λ f. ground arith) ∙ e)
IsCurrent-set xs k b (storing2 t i j m) h c =
    λ a e. c a (sym (get_elem?-set_other xs k j b λ f. ground arith) ∙ e)
IsCurrent-set xs k b (locking2 t i j) h c = tt
IsCurrent-set xs k b (paying t i j) h c = tt
IsCurrent-set xs k b (paying2 t i j) h c = tt
IsCurrent-set xs k b (posting2 i j) h c = tt
IsCurrent-set xs k b (posting i) h c = tt
IsCurrent-set xs k b looping h c = tt
IsCurrent-set xs k b entering h c = tt
IsCurrent-set xs k b testing h c = tt
IsCurrent-set xs k b taking h c = tt
IsCurrent-set xs k b (popping t) h c = tt
IsCurrent-set xs k b (locking t i j) h c = tt
IsCurrent-set xs k b leaving h c = tt
IsCurrent-set xs k b finished h c = tt

AreCurrent-set :
    (xs : List Account) (k : ℕ) (b : Account) (ws : List Worker)
    → all_hold k ws ≡ 0
    → AreCurrent xs ws
    → AreCurrent (set xs k b) ws
AreCurrent-set xs k b [] h cs = tt
AreCurrent-set xs k b (w ∷ ws) h (c, cs) =
    (IsCurrent-set xs k b w (omega arith) c, AreCurrent-set xs k b ws (omega arith) cs)

-- A thread changes no account but one whose semaphore it holds.
abbrev Changes : Shared → Worker → Shared → Type 0
Changes s v t =
    (t.accounts ≡ s.accounts)
    ⊎ ((k : ℕ) × (b : Account) × (t.accounts ≡ set s.accounts k b) × (1 ≤ holds k v))

Act-Changes : {s t : Shared} {v w : Worker} → Act s v t w → Changes s v t
Act-Changes (go_on n) = inl refl
Act-Changes (stop n) = inl refl
Act-Changes (enter p) = inl refl
Act-Changes (nothing n) = inl refl
Act-Changes (something n) = inl refl
Act-Changes (back n) = inl refl
Act-Changes (back_empty n) = inl refl
Act-Changes (pop n i j) = inl refl
Act-Changes (pop_empty n) = inl refl
Act-Changes (exit_bad e n) = inl refl
Act-Changes (lock v) = inl refl
Act-Changes (lock2 v) = inl refl
Act-Changes (load at) = inl refl
Act-Changes (pay {t} {i} {j} {m} {a} at) =
    inr (i, credit t.amount (with_money m a), refl, ground arith)
Act-Changes (load2 at) = inl refl
Act-Changes (pay2 {t} {i} {j} {m} {a} at) =
    inr (j, debit t.amount (with_money m a), refl, ground arith)
Act-Changes (post2 v) = inl refl
Act-Changes (post v) = inl refl
Act-Changes leave = inl refl

same_money :
    (xs : List Account) (i : ℕ) {a b : Account}
    → get_elem? xs i ≡ some a
    → get_elem? xs i ≡ some b
    → b.money ≡ a.money
same_money xs i h k = ground arith

Act-IsCurrent : {s t : Shared} {v w : Worker} → Act s v t w → IsCurrent t.accounts w
Act-IsCurrent (go_on n) = tt
Act-IsCurrent (stop n) = tt
Act-IsCurrent (enter p) = tt
Act-IsCurrent (nothing n) = tt
Act-IsCurrent (something n) = tt
Act-IsCurrent (back n) = tt
Act-IsCurrent (back_empty n) = tt
Act-IsCurrent (pop n i j) = tt
Act-IsCurrent (pop_empty n) = tt
Act-IsCurrent (exit_bad e n) = tt
Act-IsCurrent (lock v) = tt
Act-IsCurrent (lock2 v) = tt
Act-IsCurrent {s} (load {t} {i} {j} {a} at) = λ b e. same_money s.accounts i at e
Act-IsCurrent (pay at) = tt
Act-IsCurrent {s} (load2 {t} {i} {j} {a} at) = λ b e. same_money s.accounts j at e
Act-IsCurrent (pay2 at) = tt
Act-IsCurrent (post2 v) = tt
Act-IsCurrent (post v) = tt
Act-IsCurrent leave = tt

-- The permits of each semaphore, left or held, are one.
record IsLocked (s : System) : Type 0 where
  one : (k : ℕ) → permits s.shared.sems k + all_hold k s.workers ≡ 1
  current : AreCurrent s.shared.accounts s.workers

others-AreCurrent :
    {s t : Shared} {v w : Worker} (others : List Worker)
    → Act s v t w
    → ((k : ℕ) → holds k v + all_hold k others ≤ 1)
    → AreCurrent s.accounts others
    → AreCurrent t.accounts others
others-AreCurrent {s} others a h c = elim (Act-Changes a) [
  | inl e ↦ subst (λ xs. AreCurrent xs others) (sym e) c
  | inr (k, b, e, held) ↦
      let most = h k in
      subst (λ xs. AreCurrent xs others) (sym e)
        (AreCurrent-set s.accounts k b others (omega arith) c)
]

Step-IsLocked : {s t : System} → Step s t → IsLocked s → IsLocked t
Step-IsLocked (step {s} {t} {v} {w} front rest p a) inv =
    let (before, mine, behind) = AreCurrent-apart s.accounts front v rest inv.current in
    let most_front : (k : ℕ) → holds k v + all_hold k front ≤ 1 =
      λ k. let o = inv.one k in let l = all_hold-append k front v rest in omega arith in
    let most_rest : (k : ℕ) → holds k v + all_hold k rest ≤ 1 =
      λ k. let o = inv.one k in let l = all_hold-append k front v rest in omega arith in
    record {
      one = λ k.
          let o = inv.one k in
          let l = all_hold-append k front v rest in
          let m = all_hold-append k front w rest in let e = Act-permits k a in omega arith;
      current =
          AreCurrent-append t.accounts front w rest (others-AreCurrent front a most_front before)
            (Act-IsCurrent a) (others-AreCurrent rest a most_rest behind);
    }

idle-AreCurrent : (xs : List Account) (n : ℕ) → AreCurrent xs (replicate n looping)
idle-AreCurrent xs zero = tt
idle-AreCurrent xs (suc n) = (tt, idle-AreCurrent xs n)

Reach-IsLocked : (n : ℕ) (input : Input) {s : System} → Reach (start n input) s → IsLocked s
Reach-IsLocked n input here = record {
  one = λ k.
      let p = permits-start (length input.accounts) k in let h = idle-all_hold n k in omega arith;
  current = idle-AreCurrent input.accounts n;
}
Reach-IsLocked n input (next r st) = Step-IsLocked st (Reach-IsLocked n input r)

-- In every state the balance that a thread has read and is about to store anew is still that of the
-- account.
pub Reach-IsCurrent :
    (n : ℕ) (input : Input) {s : System} (front : List Worker) (w : Worker) (rest : List Worker)
    → Reach (start n input) s
    → s.workers ≡ front ++ w ∷ rest
    → IsCurrent s.shared.accounts w
Reach-IsCurrent n input {s} front w rest r e =
    let c = subst (AreCurrent s.shared.accounts) e (Reach-IsLocked n input r).current in
    (AreCurrent-apart s.shared.accounts front w rest c).1
