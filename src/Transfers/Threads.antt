-- ===== src/Transfers/Threads.antt =====
-- The threads of `SendMoney` with `SemTransfers` and a semaphore for each account. A thread makes one
-- access at a time; `size()`, `back()` and `pop_back()` are accesses of their own, and `+=` and `-=`
-- read a balance and store the new one in two.
pub mod Conserved
pub mod Failures
pub mod Finishes
pub mod Locks
pub mod Once
pub mod Single
use advanced_systems_program.Prelude.{
  ℕ, zero, suc, ◌+◌, ◌-◌, ◌%◌, ◌^◌, ◌<◌, ◌≡◌, ◌≢◌, ◌⊎◌, Option, none, some, List, [], ◌∷◌, ◌++◌,
  length, get_elem?, set, replicate,
}
use advanced_systems_program.Transfers.{Account, Transfer, Input, counts, get_account_index}

-- Money that comes in, and money that goes out, modulo 2^32.
abbrev pub credit : ℕ → Account → Account
credit amount a = record a { money = (a.money + amount) % 2 ^ 32 }

abbrev pub debit : ℕ → Account → Account
debit amount a = record a { money = (a.money + (2 ^ 32 - amount % 2 ^ 32)) % 2 ^ 32 }

-- The account with the balance that a thread has read.
abbrev pub with_money : ℕ → Account → Account
with_money m a = record a { money = m }

pub data Phase : Type 0 where
  running : Phase
  exited : Phase  -- by `exit(0)`
  faulted : Phase  -- `back` or `pop_back` of an empty vector

pub record Shared : Type 0 where
  pub phase : Phase
  pub accounts : List Account
  pub transfers : List Transfer
  pub sem_transfers : ℕ
  pub sems : List ℕ

-- Where a thread stands; `i` is the index of the account that gets the money.
pub data Worker : Type 0 where
  looping : Worker  -- before `while(Transfers.size())`
  entering : Worker  -- before `sem_wait(&SemTransfers)`
  testing : Worker  -- before the test behind it
  taking : Worker  -- before `back()`
  popping : Transfer → Worker  -- before `pop_back()`
  locking : Transfer → ℕ → ℕ → Worker  -- before `sem_wait(&mSem[index1])`
  locking2 : Transfer → ℕ → ℕ → Worker
  paying : Transfer → ℕ → ℕ → Worker  -- before `+=`
  storing : Transfer → ℕ → ℕ → ℕ → Worker  -- in `+=`, with the balance that was read
  paying2 : Transfer → ℕ → ℕ → Worker  -- before `-=`
  storing2 : Transfer → ℕ → ℕ → ℕ → Worker
  posting2 : ℕ → ℕ → Worker  -- before `sem_post(&mSem[index2])`
  posting : ℕ → Worker
  leaving : Worker  -- before `sem_post(&SemTransfers)`
  finished : Worker

-- One access of one thread.
pub data Act (s : Shared) : Worker → Shared → Worker → Type 0 where
  go_on : s.transfers ≢ [] → Act s looping s entering
  stop : s.transfers ≡ [] → Act s looping s finished
  enter :
      0 < s.sem_transfers
      → Act s entering (record s { sem_transfers = s.sem_transfers - 1 }) testing
  nothing : s.transfers ≡ [] → Act s testing s leaving
  something : s.transfers ≢ [] → Act s testing s taking
  back : {t : Transfer} {ts : List Transfer} → s.transfers ≡ t ∷ ts → Act s taking s (popping t)
  back_empty : s.transfers ≡ [] → Act s taking (record s { phase = faulted }) taking
  pop :
      {t u : Transfer} {us : List Transfer} {i j : ℕ}
      → s.transfers ≡ u ∷ us
      → get_account_index t.to_id s.accounts ≡ some i
      → get_account_index t.from_id s.accounts ≡ some j
      → Act s (popping t) (record s { transfers = us }) (locking t i j)
  pop_empty :
      {t : Transfer}
      → s.transfers ≡ []
      → Act s (popping t) (record s { phase = faulted }) (popping t)
  exit_bad :
      {t u : Transfer} {us : List Transfer}
      → s.transfers ≡ u ∷ us
      → (get_account_index t.to_id s.accounts ≡ none)
        ⊎ (get_account_index t.from_id s.accounts ≡ none)
      → Act s (popping t) (record s { phase = exited; transfers = us }) finished
  lock :
      {t : Transfer} {i j v : ℕ}
      → get_elem? s.sems i ≡ some (suc v)
      → Act s (locking t i j) (record s { sems = set s.sems i v }) (locking2 t i j)
  lock2 :
      {t : Transfer} {i j v : ℕ}
      → get_elem? s.sems j ≡ some (suc v)
      → Act s (locking2 t i j) (record s { sems = set s.sems j v }) (paying t i j)
  load :
      {t : Transfer} {i j : ℕ} {a : Account}
      → get_elem? s.accounts i ≡ some a
      → Act s (paying t i j) s (storing t i j a.money)
  pay :
      {t : Transfer} {i j m : ℕ} {a : Account}
      → get_elem? s.accounts i ≡ some a
      → Act s
          (storing t i j m)
          (record s { accounts = set s.accounts i (credit t.amount (with_money m a)) })
          (paying2 t i j)
  load2 :
      {t : Transfer} {i j : ℕ} {a : Account}
      → get_elem? s.accounts j ≡ some a
      → Act s (paying2 t i j) s (storing2 t i j a.money)
  pay2 :
      {t : Transfer} {i j m : ℕ} {a : Account}
      → get_elem? s.accounts j ≡ some a
      → Act s
          (storing2 t i j m)
          (record s { accounts = set s.accounts j (debit t.amount (with_money m a)) })
          (posting2 i j)
  post2 :
      {i j v : ℕ}
      → get_elem? s.sems j ≡ some v
      → Act s (posting2 i j) (record s { sems = set s.sems j (suc v) }) (posting i)
  post :
      {i v : ℕ}
      → get_elem? s.sems i ≡ some v
      → Act s (posting i) (record s { sems = set s.sems i (suc v) }) leaving
  leave : Act s leaving (record s { sem_transfers = s.sem_transfers + 1 }) looping

pub record System : Type 0 where
  pub shared : Shared
  pub workers : List Worker

-- A step is an access of one of the threads.
pub data Step : System → System → Type 0 where
  step :
      {s t : Shared} {v w : Worker} (front rest : List Worker)
      → s.phase ≡ running
      → Act s v t w
      → Step
          (record { shared = s; workers = front ++ v ∷ rest })
          (record { shared = t; workers = front ++ w ∷ rest })

-- `ParseInput` behind the reading, for `n` threads.
abbrev pub start : ℕ → Input → System
start n input = record {
  shared = record {
    phase = running;
    accounts = input.accounts;
    transfers = input.transfers;
    sem_transfers = counts n;
    sems = replicate (length input.accounts) 1;
  };
  workers = replicate n looping;
}

-- The states that lie ahead of `s`.
pub data Reach (s : System) : System → Type 0 where
  here : Reach s s
  next : {t u : System} → Reach s t → Step t u → Reach s u
