-- ===== src/Transfers.antt =====
-- Assignment3/eft.cpp: accounts and transfers read from a file, and threads that make the transfers.
-- This module has the data and the reading, Threads the steps of SendMoney.
pub mod Accounts
pub mod Threads
mod Tests
use advanced_systems_program.Prelude.{
  ℕ, zero, suc, ◌+◌, ◌-◌, ◌%◌, ◌^◌, Bool, true, false, ◌||◌, Option, none, some, List, [], ◌∷◌,
  ◌++◌, ◌==◌, leb, if◌then◌else◌, any, codes,
}
use advanced_systems_program.Prelude.Int.{ℤ, pos, negsuc}
use advanced_systems_program.CLib.{Bytes}
use advanced_systems_program.CLib.Search.{behind}
use advanced_systems_program.CLib.Streams.{get_line}
use advanced_systems_program.CLib.Strtol.{strtol}

-- An `int` is its residue modulo 2^32.
abbrev pub to_int : ℤ → ℕ
to_int (pos n) = n % 2 ^ 32
to_int (negsuc n) = 2 ^ 32 - 1 - n % 2 ^ 32

pub record Account : Type 0 where
  pub account_id : ℕ
  pub money : ℕ

pub record Transfer : Type 0 where
  pub from_id : ℕ
  pub to_id : ℕ
  pub amount : ℕ

-- The accounts in order, the transfers with the last first, which is the back of the vector.
pub record Input : Type 0 where
  pub accounts : List Account
  pub transfers : List Transfer

unfoldable pub insert_account : ℕ → ℕ → List Account → List Account
insert_account id money accounts =
    if any (λ a. a.account_id == id) accounts
    then accounts
    else accounts ++ record { account_id = id; money = money } ∷ []

-- A `getline` that fails leaves `part` as it was.
unfoldable pub parse_account : Bytes → List Account → List Account
unfolding get_line strtol insert_account
parse_account [] accounts = accounts
parse_account (c ∷ cs) accounts =
    let a = get_line 32 [] (some (c ∷ cs)) in
    let b = get_line 32 a.part a.rest in
    elim (behind (codes "Transfer ") (c ∷ cs)) [
      | none ↦ insert_account (to_int (strtol a.part)) (to_int (strtol b.part)) accounts
      | some rest ↦ accounts
    ]

unfoldable pub parse_transfer : Bytes → List Transfer → List Transfer
unfolding get_line strtol
parse_transfer [] transfers = transfers
parse_transfer (c ∷ cs) transfers =
    let a = get_line 32 [] (some (c ∷ cs)) in
    let b = get_line 32 a.part a.rest in
    let d = get_line 32 b.part b.rest in
    record {
      from_id = to_int (strtol a.part);
      to_id = to_int (strtol b.part);
      amount = to_int (strtol d.part);
    }
    ∷ transfers

unfoldable pub parse_line : Bytes → Input → Input
unfolding behind parse_account parse_transfer
parse_line line s = elim (behind (codes "Transfer ") line) [
  | none ↦ record s { accounts = parse_account line s.accounts }
  | some rest ↦ record s { transfers = parse_transfer rest s.transfers }
]

unfoldable pub parse_lines : List Bytes → Input → Input
unfolding parse_line
parse_lines [] s = s
parse_lines (line ∷ lines) s = parse_lines lines (parse_line line s)

unfoldable pub parse_input : List Bytes → Input
unfolding parse_lines
parse_input lines = parse_lines lines (record { accounts = []; transfers = [] })

-- `MaxThreadNumber`; `none` if it is not positive.
unfoldable pub max_thread_number : Bytes → Option ℕ
unfolding strtol
max_thread_number arg =
    let n = to_int (strtol arg) in if n == 0 || leb (2 ^ 31) n then none else some n

-- The value that `SemTransfers` starts with.
unfoldable pub counts : ℕ → ℕ
counts n = if n == 1 then 1 else n - 1

-- `none` for -1.
unfoldable pub get_account_index : ℕ → List Account → Option ℕ
get_account_index id [] = none
get_account_index id (a ∷ rest) =
    let later = get_account_index id rest in
    if a.account_id == id then some 0 else elim later [ none ↦ none | some i ↦ some (suc i) ]
