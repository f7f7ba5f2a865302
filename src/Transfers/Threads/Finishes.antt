-- ===== src/Transfers/Threads/Finishes.antt =====
-- A single thread comes to its end.
use advanced_systems_program.Prelude.{
  ℕ, zero, suc, ◌<◌, ◌≡◌, ◌≢◌, refl, sym, ap, ◌∙◌, some, List, [], ◌∷◌, get_elem?, set, length,
  arith, replicate, length-set, get_elem?-set_other,
}
use advanced_systems_program.Transfers.{Account, Transfer, Input, counts, get_account_index}
use advanced_systems_program.Transfers.Accounts.{get_account_index-found}
use advanced_systems_program.Transfers.Threads.{
  credit, debit, running, looping, finished, go_on, stop, enter, something, back, pop, lock, lock2,
  load, pay, load2, pay2, post2, post, leave, System, step, start, Reach, here, next,
}
use advanced_systems_program.Transfers.Threads.Once.{finished-balances}
use advanced_systems_program.Transfers.Threads.Single.{apply_all}

-- The accounts of the transfer exist and are two.
pub record IsValid (xs : List Account) (t : Transfer) : Type 0 where
  pub i : ℕ
  pub j : ℕ
  pub to_at : get_account_index t.to_id xs ≡ some i
  pub from_at : get_account_index t.from_id xs ≡ some j
  pub apart : i ≢ j

abbrev pub AreValid : List Account → List Transfer → Type 0
AreValid xs [] = Unit
AreValid xs (t ∷ ts) = IsValid xs t × AreValid xs ts

-- A new balance leaves every account where it is.
index-set :
    (id : ℕ) (xs : List Account) (i : ℕ) {a : Account} (b : Account)
    → get_elem? xs i ≡ some a
    → b.account_id ≡ a.account_id
    → get_account_index id (set xs i b) ≡ get_account_index id xs
unfolding get_account_index
index-set id [] i b h s = refl
index-set id (x ∷ xs) zero {a} b h s =
    let same : b.account_id ≡ x.account_id = ground arith in rw same refl
index-set id (x ∷ xs) (suc i) b h s = rw (index-set id xs i b h s) refl

IsValid-set :
    (xs : List Account) (i : ℕ) {a : Account} (b : Account)
    → get_elem? xs i ≡ some a
    → b.account_id ≡ a.account_id
    → (t : Transfer) → IsValid xs t
    → IsValid (set xs i b) t
IsValid-set xs i b h s t v = record {
  i = v.i;
  j = v.j;
  to_at = index-set t.to_id xs i b h s ∙ v.to_at;
  from_at = index-set t.from_id xs i b h s ∙ v.from_at;
  apart = v.apart;
}

AreValid-set :
    (xs : List Account) (i : ℕ) {a : Account} (b : Account)
    → get_elem? xs i ≡ some a
    → b.account_id ≡ a.account_id
    → (ts : List Transfer) → AreValid xs ts
    → AreValid (set xs i b) ts
AreValid-set xs i b h s [] v = v
AreValid-set xs i b h s (t ∷ ts) (v, vs) =
    (IsValid-set xs i b h s t v, AreValid-set xs i b h s ts vs)

module _ {A : Type 0} where
  get_elem?-set :
      (xs : List A) (i : ℕ) {a : A} (b : A)
      → get_elem? xs i ≡ some a
      → get_elem? (set xs i b) i ≡ some b
  get_elem?-set [] i b h = absurd (ground arith)
  get_elem?-set (x ∷ xs) zero b h = refl
  get_elem?-set (x ∷ xs) (suc i) b h = get_elem?-set xs i b h

  -- A value that is written over and put back.
  set-back :
      (xs : List A) (i : ℕ) {a : A} (b : A) → get_elem? xs i ≡ some a → set (set xs i b) i a ≡ xs
  set-back [] i b h = refl
  set-back (x ∷ xs) zero {a} b h = let same : a ≡ x = ground arith in ap (λ y. y ∷ xs) same
  set-back (x ∷ xs) (suc i) b h = ap (◌∷◌ x) (set-back xs i b h)

abbrev alone : List Account → List Transfer → List ℕ → System
alone xs ts sems = record {
  shared = record {
    phase = running;
    accounts = xs;
    transfers = ts;
    sem_transfers = 1;
    sems = sems;
  };
  workers = looping ∷ [];
}

-- Every account's semaphore is free.
abbrev Free : List Account → List ℕ → Type 0
Free xs sems = (k : ℕ) → k < length xs → get_elem? sems k ≡ some 1

round :
    {s : System} (xs : List Account) (t : Transfer) (ts : List Transfer) (sems : List ℕ)
    → IsValid xs t
    → AreValid xs ts
    → Free xs sems
    → Reach s (alone xs (t ∷ ts) sems)
    → (ys : List Account) × (AreValid ys ts) × (length ys ≡ length xs) × Reach s (alone ys ts sems)
round {s} xs t ts sems v vs free r =
    let (a, at_i, id_a, lt_i) = get_account_index-found t.to_id v.i xs v.to_at in
    let ys = set xs v.i (credit t.amount a) in
    let from_at = index-set t.from_id xs v.i (credit t.amount a) at_i refl ∙ v.from_at in
    let (b, at_j, id_b, lt_j) = get_account_index-found t.from_id v.j ys from_at in
    let zs = set ys v.j (debit t.amount b) in
    let same = length-set xs v.i (credit t.amount a) in
    let held = set sems v.i 0 in
    let free_i = free v.i lt_i in
    let free_j : get_elem? held v.j ≡ some 1 =
      get_elem?-set_other sems v.i v.j 0 v.apart ∙ free v.j (omega arith) in
    let held_i : get_elem? held v.i ≡ some 0 = get_elem?-set sems v.i 0 free_i in
    let back_j = set-back held v.j 0 free_j in
    let r4 =
      next
        (next
          (next (next r (step [] [] refl (go_on λ n. ground arith)))
            (step [] [] refl (enter (omega arith))))
          (step [] [] refl (something λ n. ground arith)))
        (step [] [] refl (back refl)) in
    let r7 =
      next
        (next (next r4 (step [] [] refl (pop refl v.to_at v.from_at)))
          (step [] [] refl (lock free_i)))
        (step [] [] refl (lock2 free_j)) in
    let r8 = next (next r7 (step [] [] refl (load at_i))) (step [] [] refl (pay at_i)) in
    let r9 = next (next r8 (step [] [] refl (load2 at_j))) (step [] [] refl (pay2 at_j)) in
    let r10 = next r9 (step [] [] refl (post2 (get_elem?-set held v.j 0 free_j))) in
    let r11 = next r10 (step [] [] refl (post (ap (λ l. get_elem? l v.i) back_j ∙ held_i))) in
    let r12 = next r11 (step [] [] refl leave) in
    (
      zs,
      AreValid-set ys v.j (debit t.amount b) at_j refl ts
          (AreValid-set xs v.i (credit t.amount a) at_i refl ts vs),
      length-set ys v.j (debit t.amount b) ∙ same,
      rw (sym (ap (λ l. set l v.i 1) back_j ∙ set-back sems v.i 0 free_i)) r12,
    )

rounds :
    {s : System} (xs : List Account) (ts : List Transfer) (sems : List ℕ)
    → AreValid xs ts
    → Free xs sems
    → Reach s (alone xs ts sems)
    → (ys : List Account) × Reach s (alone ys [] sems)
rounds xs [] sems v free r = (xs, r)
rounds xs (t ∷ ts) sems (v, vs) free r =
    let (ys, ws, len, more) = round xs t ts sems v vs free r in
    rounds ys ts sems ws (λ k h. free k (omega arith)) more

ones_free : (n k : ℕ) → k < n → get_elem? {A = ℕ} (replicate n 1) k ≡ some 1
ones_free zero k h = absurd (omega arith)
ones_free (suc n) zero h = refl
ones_free (suc n) (suc k) h = ones_free n k (omega arith)

-- If every transfer of the file is between two different accounts that exist, a single thread can
-- make all of them and end, with the balances of the transfers made one after another.
pub one_thread-finishes :
    (input : Input)
    → AreValid input.accounts input.transfers
    → (s : System) × Reach (start 1 input) s
      × (s.shared.phase ≡ running)
      × (s.workers ≡ finished ∷ [])
      × (s.shared.accounts ≡ apply_all input.transfers input.accounts)
unfolding counts
one_thread-finishes input v =
    let ones : List ℕ = replicate (length input.accounts) 1 in
    let (ys, r) =
      rounds input.accounts input.transfers ones v (ones_free (length input.accounts)) here in
    let end = next r (step [] [] refl (stop refl)) in
    (_, end, refl, refl, finished-balances 1 input refl end refl refl)
