-- ===== src/SharedUpdater.antt =====
-- Assignment4/locationUpdater.cpp: the calendar updater of Assignment2 as two processes, which hand
-- the emails over in a ring of arrays in shared memory. This module has the ring, Processes the
-- steps of the two processes, Delete the `DeleteEvent` that differs, and Mail what the calendar
-- becomes.
pub mod Delete
pub mod Mail
pub mod Processes
pub mod Queue
pub mod Refinement
pub mod Texts
pub mod Vacated
mod Tests
use advanced_systems_program.Prelude.{
  ℕ, zero, suc, ◌+◌, ◌-◌, ◌%◌, Option, none, some, List, [], ◌∷◌, ◌++◌, ◌==◌, ltb, leb, ◌>>=◌,
  if◌then◌else◌, length, take, drop, replicate,
}
use advanced_systems_program.CLib.{Bytes, c_str}

abbrev pub default_length : ℕ
default_length = 256

-- `Shared_Valid_Emails` and the three counters; `mmap` gives memory that is 0. There are `BufferLength`
-- arrays: what uses an index from there on is `none`.
pub record Ring : Type 0 where
  pub valid_emails : ℕ → Bytes
  pub email_count : ℕ
  pub buffer_read : ℕ
  pub buffer_write : ℕ

abbrev pub empty_ring : Ring
empty_ring = record {
  valid_emails = λ i. replicate default_length 0;
  email_count = 0;
  buffer_read = 0;
  buffer_write = 0;
}

abbrev pub put : (ℕ → Bytes) → ℕ → Bytes → ℕ → Bytes
put slots i slot k = if k == i then slot else slots k

-- The loop over the bytes of `email`; `none` runs over the end of the array.
unfoldable pub overlay : Bytes → Bytes → Option Bytes
overlay email slot =
    if leb (length email) (length slot) then some (email ++ drop (length email) slot) else none

-- The section of `ParseValidEmailsThread` for an email.
unfoldable pub write_email : ℕ → Bytes → Ring → Option Ring
unfolding overlay
write_email buffer_length email r =
    if ltb r.buffer_write buffer_length
    then elim (overlay email (r.valid_emails r.buffer_write)) [
      | none ↦ none
      | some slot ↦ some (record r {
        valid_emails = put r.valid_emails r.buffer_write slot;
        email_count = r.email_count + 1;
        buffer_write = (r.buffer_write + 1) % buffer_length;
      })
    ]
    else none

-- `std::find` of a 0 in all but the last byte, and the string up to it.
unfoldable pub read_slot : Bytes → Bytes
unfolding c_str
read_slot slot = c_str (take (default_length - 1) slot)

-- The email at the read position, and the ring without it.
unfoldable pub take_email : ℕ → Ring → Bytes × Ring
unfolding read_slot
take_email buffer_length r = (
  read_slot (r.valid_emails r.buffer_read),
  record r {
    valid_emails = put r.valid_emails r.buffer_read (replicate default_length 0);
    email_count = r.email_count - 1;
    buffer_read = (r.buffer_read + 1) % buffer_length;
  },
)

-- One round of the loop of `processCalendarThread`, entered with a positive count.
unfoldable pub read_email : ℕ → Ring → Option (Bytes × Ring)
unfolding take_email
read_email buffer_length r =
    if ltb r.buffer_read buffer_length then some (take_email buffer_length r) else none

-- What the two processes do to the ring under the lock: the one adds an email, the other removes one.
pub data Op : Type 0 where
  add : Bytes → Op
  remove : Op

-- The removed emails. `none`: the parser goes on only when there is room, and the other only with an
-- email.
unfoldable pub run_ring : ℕ → List Op → Ring → Option (List Bytes)
unfolding write_email read_email
run_ring n [] r = some []
run_ring n (add email ∷ ops) r =
    if ltb r.email_count n then write_email n email r >>= run_ring n ops else none
run_ring n (remove ∷ ops) r =
    if r.email_count == 0
    then none
    else read_email n r >>= λ p. run_ring n ops p.1 >>= λ out. some (p.0 ∷ out)
