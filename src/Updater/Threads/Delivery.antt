-- ===== src/Updater/Threads/Delivery.antt =====
-- The emails reach `processCalendar` in the order of the mail.
use advanced_systems_program.Prelude.{
  ℕ, ◌+◌, ◌≤◌, ◌<◌, ◌≡◌, refl, sym, ap, ◌∙◌, inl, inr, Bool, true, false, List, [], ◌∷◌, ◌++◌,
  length, length-append, arith, Option-cases, Bool-cases, ltb,
}
use mathlib.Core.List.{append_assoc, append-nil}
use advanced_systems_program.CLib.{Bytes, c_str}
use advanced_systems_program.Updater.Checks.{check_email}
use advanced_systems_program.Updater.Threads.{
  after_subject, found_email, emails, Parser, reading, signalling, leaving, gone, Processor,
  testing, locking, holding, to_wait, waiting, woken, draining, ended, signal, System, start, Step,
  parse_line, signal_full, next_line, set_done, signal_done, go_on, stop, lock, must_wait, wait,
  wake, relock, drain, process, unlock, Reach, here, next,
}

-- A reader needs room for one email.
abbrev spare : Parser → ℕ
spare reading = 1
spare signalling = 0
spare leaving = 1
spare gone = 1

abbrev read_out : Parser → Bool
read_out reading = false
read_out signalling = false
read_out leaving = true
read_out gone = true

abbrev is_ended : Processor → Bool
is_ended ended = true
is_ended _ = false

record Inv (limit : ℕ) (all : List Bytes) (s : System) : Type 0 where
  in_order : s.processed ++ (s.valid_emails ++ emails s.input) ≡ emails all
  fits : length s.valid_emails + spare s.parser ≤ limit
  all_read : read_out s.parser ≡ true → s.input ≡ []
  done_read : s.done ≡ true → read_out s.parser ≡ true
  ended_done : is_ended s.processor ≡ true → s.done ≡ true

pub length-found_email : (line : Bytes) → length (found_email line) ≤ 1
unfolding found_email
length-found_email line = elim (Bool-cases (ltb 9 (length (c_str line)))) [
  | inl h ↦ elim (Option-cases (after_subject line)) [
    | inl n ↦ rw (h, n) (omega arith)
    | inr (email, e) ↦ elim (Bool-cases (check_email email)) [
      | inl c ↦ rw (h, e) (rw c (omega arith))
      | inr c ↦ rw (h, e) (rw c (omega arith))
    ]
  ]
  | inr h ↦ rw h (omega arith)
]

is_ended-signal : (p : Processor) → is_ended (signal p) ≡ is_ended p
is_ended-signal testing = refl
is_ended-signal locking = refl
is_ended-signal holding = refl
is_ended-signal to_wait = refl
is_ended-signal waiting = refl
is_ended-signal woken = refl
is_ended-signal draining = refl
is_ended-signal ended = refl

-- A step of the processor that takes no email.
moved :
    {limit : ℕ} {all : List Bytes} {s : System}
    → Inv limit all s
    → (p : Processor) → (is_ended p ≡ true → s.done ≡ true)
    → Inv limit all (record s { processor = p })
moved inv p h = record {
  in_order = inv.in_order;
  fits = inv.fits;
  all_read = inv.all_read;
  done_read = inv.done_read;
  ended_done = h;
}

signalled :
    {limit : ℕ} {all : List Bytes} {s : System}
    → Inv limit all s
    → Inv limit all (record s { processor = signal s.processor })
signalled {s = s} inv =
    moved inv (signal s.processor) λ h. inv.ended_done (sym (is_ended-signal s.processor) ∙ h)

Step-Inv :
    {limit : ℕ} {all : List Bytes} {s t : System}
    → Inv limit all s
    → Step limit s t
    → Inv limit all t
unfolding emails
Step-Inv {s = s} inv (parse_line {line} {lines} p i f) =
    let room = ap spare p in
    let one = length-found_email line in
    let more = length-append s.valid_emails (found_email line) in
    record {
      in_order =
          ap (λ r. s.processed ++ r) (append_assoc s.valid_emails (found_email line) (emails lines))
          ∙ ap (λ r. s.processed ++ (s.valid_emails ++ emails r)) (sym i)
          ∙ inv.in_order;
      fits = let h = inv.fits in omega arith;
      all_read = λ h. absurd (ground arith);
      done_read = λ h. absurd (let r = inv.done_read h in ground (arith, ap read_out p));
      ended_done = inv.ended_done;
    }
Step-Inv inv (signal_full p h) = signalled inv
Step-Inv inv (next_line p h) = record {
  in_order = inv.in_order;
  fits = omega arith;
  all_read = λ h. absurd (ground arith);
  done_read = λ h. absurd (let r = inv.done_read h in ground (arith, ap read_out p));
  ended_done = inv.ended_done;
}
Step-Inv inv (set_done p i) = record {
  in_order = inv.in_order;
  fits = let h = inv.fits in let r = ap spare p in omega arith;
  all_read = λ h. i;
  done_read = λ h. refl;
  ended_done = λ h. refl;
}
Step-Inv {s = s} inv (signal_done p) = record {
  in_order = inv.in_order;
  fits = let h = inv.fits in let r = ap spare p in omega arith;
  all_read = λ h. inv.all_read (ap read_out p);
  done_read = λ h. refl;
  ended_done = λ h. inv.ended_done (sym (is_ended-signal s.processor) ∙ h);
}
Step-Inv inv (go_on p h) = moved inv _ λ e. absurd (ground arith)
Step-Inv inv (stop p h) = moved inv _ λ e. h
Step-Inv inv (lock p) = moved inv _ λ e. absurd (ground arith)
Step-Inv inv (must_wait p n h) = moved inv _ λ e. absurd (ground arith)
Step-Inv inv (wait p) = moved inv _ λ e. absurd (ground arith)
Step-Inv inv (wake p) = moved inv _ λ e. absurd (ground arith)
Step-Inv inv (relock p) = moved inv _ λ e. absurd (ground arith)
Step-Inv inv (drain p h) = moved inv _ λ e. absurd (ground arith)
Step-Inv {s = s} inv (process {email} {rest} p v) = record {
  in_order =
      append_assoc s.processed (email ∷ []) (rest ++ emails s.input)
      ∙ ap (λ r. s.processed ++ (r ++ emails s.input)) (sym v)
      ∙ inv.in_order;
  fits = let h = inv.fits in let l = ap length v in omega arith;
  all_read = inv.all_read;
  done_read = inv.done_read;
  ended_done = inv.ended_done;
}
Step-Inv inv (unlock p v) = moved inv _ λ e. absurd (ground arith)

Reach-Inv :
    {limit : ℕ} {all : List Bytes} {s : System}
    → 0 < limit
    → Reach limit (start all) s
    → Inv limit all s
Reach-Inv {all = all} h here = record {
  in_order = refl;
  fits = omega arith;
  all_read = λ e. absurd (ground arith);
  done_read = λ e. absurd (ground arith);
  ended_done = λ e. absurd (ground arith);
}
Reach-Inv h (next r st) = Step-Inv (Reach-Inv h r) st

-- In every state, what `processCalendar` got, what waits in `ValidEmails` and the emails of the lines
-- to come are together the emails of the mail, in order; and `ValidEmails` is never longer than
-- `BufferLength`.
pub processed-in_order :
    (limit : ℕ) (input : List Bytes) {s : System}
    → 0 < limit
    → Reach limit (start input) s
    → (s.processed ++ (s.valid_emails ++ emails s.input) ≡ emails input)
      × (length s.valid_emails ≤ limit)
processed-in_order limit input h r =
    let inv = Reach-Inv h r in let fits = inv.fits in (inv.in_order, omega arith)

-- Once the thread of the calendar has ended, all lines were read, and the emails that it did not
-- process are the last ones of the mail, fewer than `BufferLength`.
pub ended-lost :
    (limit : ℕ) (input : List Bytes) {s : System}
    → 0 < limit
    → Reach limit (start input) s
    → s.processor ≡ ended
    → (s.processed ++ s.valid_emails ≡ emails input) × (length s.valid_emails < limit)
unfolding emails
ended-lost limit input {s} h r e =
    let inv = Reach-Inv h r in
    let over = inv.done_read (inv.ended_done (ap is_ended e)) in
    let none_left : emails s.input ≡ [] = ap emails (inv.all_read over) in
    (
      ap (λ t. s.processed ++ t) (sym (append-nil s.valid_emails))
          ∙ ap (λ t. s.processed ++ (s.valid_emails ++ t)) (sym none_left)
          ∙ inv.in_order,
      read_out-fits s.parser over inv.fits,
    )
  where
    read_out-fits : (p : Parser) {n : ℕ} → read_out p ≡ true → n + spare p ≤ limit → n < limit
    read_out-fits reading o f = absurd (ground arith)
    read_out-fits signalling o f = absurd (ground arith)
    read_out-fits leaving o f = omega arith
    read_out-fits gone o f = omega arith

-- A parser that reads has room for an email.
pub reading-room :
    (limit : ℕ) (input : List Bytes) {s : System}
    → 0 < limit
    → Reach limit (start input) s
    → s.parser ≡ reading
    → length s.valid_emails < limit
reading-room limit input h r p =
    let inv = Reach-Inv h r in let fits = inv.fits in let one = ap spare p in omega arith
