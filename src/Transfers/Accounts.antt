-- ===== src/Transfers/Accounts.antt =====
-- The accounts that `ParseInput` makes.
use advanced_systems_program.Prelude.{
  ℕ, zero, suc, ◌<◌, ◌≡◌, refl, Bool, true, false, not, ◌&&◌, ◌||◌, some, List, [], ◌∷◌, ◌++◌, ◌==◌,
  any, length, get_elem?, codes, arith, Bool-cases, Option-cases, inl, inr,
}
use advanced_systems_program.CLib.{Bytes}
use advanced_systems_program.CLib.Search.{behind}
use advanced_systems_program.Transfers.{
  Account, Input, insert_account, parse_account, parse_line, parse_lines, parse_input,
  get_account_index,
}

abbrev pub has_id : ℕ → List Account → Bool
has_id id accounts = any (λ a. a.account_id == id) accounts

-- No two accounts have the same id.
unfoldable pub is_unique : List Account → Bool
is_unique [] = true
is_unique (a ∷ rest) = not (has_id a.account_id rest) && is_unique rest

has_id-append :
    (id : ℕ) (xs : List Account) (a : Account)
    → has_id id (xs ++ a ∷ []) ≡ (has_id id xs || a.account_id == id)
has_id-append id [] a = ground arith
has_id-append id (x ∷ xs) a = ground (arith, has_id-append id xs a)

append-is_unique :
    (xs : List Account) (a : Account)
    → is_unique xs ≡ true
    → has_id a.account_id xs ≡ false
    → is_unique (xs ++ a ∷ []) ≡ true
unfolding is_unique
append-is_unique [] a u h = refl
append-is_unique (x ∷ xs) a u h =
    ground (arith, has_id-append x.account_id xs a, append-is_unique xs a)

insert_account-is_unique :
    (id money : ℕ) (xs : List Account)
    → is_unique xs ≡ true
    → is_unique (insert_account id money xs) ≡ true
unfolding insert_account
insert_account-is_unique id money xs u = elim (Bool-cases (has_id id xs)) [
  | inl h ↦ rw h u
  | inr h ↦ rw h (append-is_unique xs (record { account_id = id; money = money }) u h)
]

parse_account-is_unique :
    (line : Bytes) (xs : List Account)
    → is_unique xs ≡ true
    → is_unique (parse_account line xs) ≡ true
unfolding parse_account
parse_account-is_unique [] xs u = u
parse_account-is_unique (c ∷ cs) xs u = elim (Option-cases (behind (codes "Transfer ") (c ∷ cs))) [
  | inl n ↦ rw (parse_account, n) (insert_account-is_unique _ _ xs u)
  | inr (rest, b) ↦ rw (parse_account, b) u
]

parse_line-is_unique :
    (line : Bytes) (s : Input)
    → is_unique s.accounts ≡ true
    → is_unique (parse_line line s).accounts ≡ true
unfolding parse_line
parse_line-is_unique line s u = elim (Option-cases (behind (codes "Transfer ") line)) [
  | inl n ↦ rw (parse_line, n) (parse_account-is_unique line s.accounts u)
  | inr (rest, b) ↦ rw (parse_line, b) u
]

parse_lines-is_unique :
    (lines : List Bytes) (s : Input)
    → is_unique s.accounts ≡ true
    → is_unique (parse_lines lines s).accounts ≡ true
unfolding parse_lines
parse_lines-is_unique [] s u = u
parse_lines-is_unique (line ∷ lines) s u =
    parse_lines-is_unique lines (parse_line line s) (parse_line-is_unique line s u)

-- The account that the search finds has the id, and a position in the list.
pub get_account_index-found :
    (id i : ℕ) (xs : List Account)
    → get_account_index id xs ≡ some i
    → (a : Account) × (get_elem? xs i ≡ some a) × (a.account_id ≡ id) × (i < length xs)
unfolding get_account_index
get_account_index-found id i [] h = absurd (ground arith)
get_account_index-found id zero (x ∷ xs) h = elim (Bool-cases (x.account_id == id)) [
  | inl e ↦ (x, refl, ground arith, omega arith)
  | inr e ↦ elim (Option-cases (get_account_index id xs)) [
    | inl n ↦ absurd (ground arith)
    | inr (j, g) ↦ absurd (ground arith)
  ]
]
get_account_index-found id (suc i) (x ∷ xs) h = elim (Bool-cases (x.account_id == id)) [
  | inl e ↦ absurd (ground arith)
  | inr e ↦ elim (Option-cases (get_account_index id xs)) [
    | inl n ↦ absurd (ground arith)
    | inr (j, g) ↦
        let (a, at, same, lt) = get_account_index-found id i xs (ground arith) in
        (a, at, same, omega arith)
  ]
]

unique-found :
    (xs : List Account) (i : ℕ) {a : Account}
    → is_unique xs ≡ true
    → get_elem? xs i ≡ some a
    → get_account_index a.account_id xs ≡ some i
unfolding is_unique get_account_index
unique-found [] i u h = absurd (ground arith)
unique-found (x ∷ xs) zero {a} u h =
    let same : x ≡ a = ground arith in
    let e : (x.account_id == a.account_id) ≡ true = ground arith in rw e refl
unique-found (x ∷ xs) (suc i) {a} u h = elim (Bool-cases (x.account_id == a.account_id)) [
  | inl e ↦ absurd (ground (arith, elem-has_id xs i h))
  | inr e ↦ rw (e, unique-found xs i (ground arith) h) refl
]
  where
    elem-has_id :
        (ys : List Account) (k : ℕ) → get_elem? ys k ≡ some a → has_id a.account_id ys ≡ true
    elem-has_id [] k g = absurd (ground arith)
    elem-has_id (y ∷ ys) zero g =
        let same : y.account_id ≡ a.account_id = ground arith in ground arith
    elem-has_id (y ∷ ys) (suc k) g = ground (arith, elem-has_id ys k g)

-- Whatever the file holds, no two accounts have the same id, so each account is found under its id.
parse_input-found :
    (lines : List Bytes) (i : ℕ) {a : Account}
    → get_elem? (parse_input lines).accounts i ≡ some a
    → get_account_index a.account_id (parse_input lines).accounts ≡ some i
unfolding parse_input is_unique
parse_input-found lines i h =
    unique-found (parse_input lines).accounts i
      (parse_lines-is_unique lines (record { accounts = []; transfers = [] }) refl) h
