-- ===== src/Transfers/Tests.antt =====
-- Two accounts with a few transfers.
use advanced_systems_program.Prelude.{
  ◌≡◌, refl, ap, ◌+◌, ◌%◌, ◌^◌, some, List, [], ◌∷◌, codes, get_elem?, arith,
}
use advanced_systems_program.CLib.{Bytes, is_digit, is_space}
use advanced_systems_program.CLib.Search.{behind}
use advanced_systems_program.CLib.Streams.{up_to, taken, get_line}
use advanced_systems_program.CLib.Strtol.{strtol, skip_spaces, digits_value}
use advanced_systems_program.Transfers.{
  Account, Transfer, Input, insert_account, parse_account, parse_transfer, parse_line, parse_lines,
  parse_input, counts, get_account_index,
}
use advanced_systems_program.Transfers.Threads.{
  System, start, Step, step, Reach, here, next, go_on, stop, enter, something, back, pop, lock,
  lock2, load, pay, load2, pay2, post2, post, leave, running, looping, storing2, finished,
}
use advanced_systems_program.Transfers.Threads.Conserved.{total, all_in_transit, total-conserved}
use advanced_systems_program.Transfers.Threads.Finishes.{AreValid, one_thread-finishes}
use advanced_systems_program.Transfers.Threads.Single.{apply_all}
use advanced_systems_program.Transfers.Threads.Once.{finished-balances}
use advanced_systems_program.Transfers.Threads.Failures.{own_lock, self_transfer-stuck}

abbrev file : List Bytes
file = codes "1 100" ∷ codes "2" ∷ codes "1 900" ∷ codes "Transfer 1 2 30" ∷ []

abbrev accounts : List Account
accounts = record { account_id = 1; money = 100 } ∷ record { account_id = 2; money = 2 } ∷ []

abbrev pay_30 : Transfer
pay_30 = record { from_id = 1; to_id = 2; amount = 30 }

file_input : parse_input file ≡ record { accounts = accounts; transfers = pay_30 ∷ [] }
unfolding parse_input parse_lines parse_line parse_account parse_transfer insert_account behind
    get_line up_to taken strtol skip_spaces digits_value is_digit is_space
file_input = refl

file-first : get_elem? (parse_input file).accounts 0 ≡ some (record { account_id = 1; money = 100 })
file-first = ap (λ s. get_elem? s.accounts 0) file_input

abbrev input : Input
input = record { accounts = accounts; transfers = pay_30 ∷ [] }

second_account : get_account_index 2 accounts ≡ some 1
unfolding get_account_index
second_account = refl

first_account : get_account_index 1 accounts ≡ some 0
unfolding get_account_index
first_account = refl

-- One of two threads has read the balance that it takes from, and the other waits at the loop.
abbrev in_transfer : System
in_transfer = record {
  shared = record {
    phase = running;
    accounts = record { account_id = 1; money = 100 } ∷ record { account_id = 2; money = 32 } ∷ [];
    transfers = [];
    sem_transfers = 0;
    sems = 0 ∷ 0 ∷ [];
  };
  workers = storing2 pay_30 1 0 100 ∷ looping ∷ [];
}

to_in_transfer : Reach (start 2 input) in_transfer
unfolding counts
to_in_transfer =
    let other = looping ∷ [] in
    let r1 = next {t = start 2 input} here (step [] other refl (go_on λ n. ground arith)) in
    let r2 = next r1 (step [] other refl (enter (omega arith))) in
    let r3 = next r2 (step [] other refl (something λ n. ground arith)) in
    let r4 = next r3 (step [] other refl (back refl)) in
    let r5 = next r4 (step [] other refl (pop refl second_account first_account)) in
    let r6 = next r5 (step [] other refl (lock refl)) in
    let r7 = next r6 (step [] other refl (lock2 refl)) in
    let r8 = next (next r7 (step [] other refl (load refl))) (step [] other refl (pay refl)) in
    next r8 (step [] other refl (load2 refl))

total-conserved_example :
    total in_transfer.shared.accounts % 2 ^ 32
    ≡ (total accounts + all_in_transit in_transfer.workers) % 2 ^ 32
total-conserved_example = total-conserved 2 input to_in_transfer

abbrev paid : List Account
paid = record { account_id = 1; money = 70 } ∷ record { account_id = 2; money = 32 } ∷ []

abbrev at_end : System
at_end = record {
  shared = record (start 1 input).shared { accounts = paid; transfers = []; sem_transfers = 1 };
  workers = finished ∷ [];
}

one_permit : counts 1 ≡ 1
unfolding counts
one_permit = refl

to_end : Reach (start 1 input) at_end
unfolding counts
to_end =
    let r1 = next {t = start 1 input} here (step [] [] refl (go_on λ n. ground arith)) in
    let r2 = next r1 (step [] [] refl (enter (omega arith))) in
    let r3 = next r2 (step [] [] refl (something λ n. ground arith)) in
    let r4 = next r3 (step [] [] refl (back refl)) in
    let r5 = next r4 (step [] [] refl (pop refl second_account first_account)) in
    let r6 = next r5 (step [] [] refl (lock refl)) in
    let r7 = next r6 (step [] [] refl (lock2 refl)) in
    let r8 = next (next r7 (step [] [] refl (load refl))) (step [] [] refl (pay refl)) in
    let r9 = next (next r8 (step [] [] refl (load2 refl))) (step [] [] refl (pay2 refl)) in
    let r10 = next r9 (step [] [] refl (post2 refl)) in
    let r11 = next r10 (step [] [] refl (post refl)) in
    let r12 = next r11 (step [] [] refl leave) in next r12 (step [] [] refl (stop refl))

finished-balances_example : paid ≡ apply_all (pay_30 ∷ []) accounts
finished-balances_example = finished-balances 1 input one_permit to_end refl refl

two_accounts : AreValid accounts (pay_30 ∷ [])
two_accounts = (
  record {
    i = 1;
    j = 0;
    to_at = second_account;
    from_at = first_account;
    apart = λ e. ground arith;
  },
  tt,
)

one_thread-finishes_example :
    (s : System) × Reach (start 1 input) s
    × (s.shared.phase ≡ running)
    × (s.workers ≡ finished ∷ [])
    × (s.shared.accounts ≡ apply_all (pay_30 ∷ []) accounts)
one_thread-finishes_example = one_thread-finishes input two_accounts

abbrev to_itself : Transfer
to_itself = record { from_id = 2; to_id = 2; amount = 5 }

abbrev loop_input : Input
loop_input = record { accounts = accounts; transfers = to_itself ∷ pay_30 ∷ [] }

self_transfer-stuck_example :
    Reach (start 1 loop_input) (own_lock loop_input to_itself (pay_30 ∷ []) 1)
    × ((u : System) → ¬ Step (own_lock loop_input to_itself (pay_30 ∷ []) 1) u)
self_transfer-stuck_example =
    self_transfer-stuck loop_input to_itself (pay_30 ∷ []) 1 refl refl second_account

abbrev two_input : Input
two_input = record { accounts = accounts; transfers = pay_30 ∷ to_itself ∷ [] }
