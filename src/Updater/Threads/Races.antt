-- ===== src/Updater/Threads/Races.antt =====
-- `Done` is set and signalled without `mLock`: two runs that go wrong.
use advanced_systems_program.Prelude.{
  ℕ, ◌<◌, ◌≡◌, refl, sym, ap, inl, true, false, List, [], ◌∷◌, ◌++◌, length, length-append, arith,
}
use mathlib.Core.List.{append_assoc, append-nil}
use advanced_systems_program.CLib.{Bytes}
use advanced_systems_program.Updater.Threads.{
  found_email, emails, reading, gone, testing, waiting, draining, ended, woken, relock, signal_full,
  System, start, Step, parse_line, next_line, set_done, signal_done, go_on, stop, lock, must_wait,
  wait, wake, drain, process, unlock, Reach, here, next,
}

-- The mail was read up to `input`, and the calendar's thread has not begun.
abbrev read_to : List Bytes → List Bytes → System
read_to input valid = record {
  input = input;
  parser = reading;
  processor = testing;
  valid_emails = valid;
  done = false;
  processed = [];
}

read_all :
    (limit : ℕ) {s : System} (input valid : List Bytes)
    → length (valid ++ emails input) < limit
    → Reach limit s (read_to input valid)
    → Reach limit s (read_to [] (valid ++ emails input))
unfolding emails
read_all limit {s} [] valid h r = rw (append-nil valid) r
read_all limit {s} (line ∷ lines) valid h r =
    let assoc = append_assoc valid (found_email line) (emails lines) in
    let len = length-append (valid ++ found_email line) (emails lines) in
    let total = ap length assoc in
    rw (sym assoc) (
      read_all limit lines (valid ++ found_email line) (omega arith)
        (next (next r (parse_line refl refl refl)) (next_line refl (omega arith))))

-- A mail with fewer emails than `BufferLength` can be read to its end before the thread of the
-- calendar looks at `Done` for the first time; it then ends without processing any email.
pub ended-nothing_processed :
    (limit : ℕ) (input : List Bytes)
    → length (emails input) < limit
    → Reach limit (start input) (record {
      input = [];
      parser = gone;
      processor = ended;
      valid_emails = emails input;
      done = true;
      processed = [];
    })
ended-nothing_processed limit input h =
    let r = read_all limit input [] h here in
    next (next (next r (set_done refl refl)) (signal_done refl)) (stop refl refl)

-- The calendar's thread has the lock and takes what is left.
abbrev left_to : List Bytes → List Bytes → System
left_to valid processed = record {
  input = [];
  parser = reading;
  processor = draining;
  valid_emails = valid;
  done = false;
  processed = processed;
}

drain_all :
    (limit : ℕ) {s : System} (valid processed : List Bytes)
    → Reach limit s (left_to valid processed)
    → Reach limit s (left_to [] (processed ++ valid))
drain_all limit {s} [] processed r = rw (append-nil processed) r
drain_all limit {s} (e ∷ es) processed r =
    rw (sym (append_assoc processed (e ∷ []) es))
      (drain_all limit es (processed ++ e ∷ []) (next r (process refl refl)))

abbrev resting : List Bytes → System
resting processed = record {
  input = [];
  parser = reading;
  processor = testing;
  valid_emails = [];
  done = false;
  processed = processed;
}

rest_all :
    (limit : ℕ) {s : System} (valid : List Bytes)
    → Reach limit s (read_to [] valid)
    → Reach limit s (resting valid)
rest_all limit {s} [] r = r
rest_all limit {s} (e ∷ es) r =
    let held = next (next r (go_on refl refl)) (lock refl) in
    next (drain_all limit (e ∷ es) [] (next held (drain refl (inl λ h. ground arith))))
      (unlock refl refl)

-- Asleep, with no thread left that signals.
abbrev pub asleep : List Bytes → System
asleep processed = record {
  input = [];
  parser = gone;
  processor = waiting;
  valid_emails = [];
  done = true;
  processed = processed;
}

asleep-wake :
    (limit : ℕ) (processed : List Bytes) {t : System}
    → Step limit (asleep processed) t
    → t.processor ≡ woken
asleep-wake limit processed (wake p) = refl
asleep-wake limit processed (parse_line p i f) = absurd (ground arith)
asleep-wake limit processed (signal_full p h) = absurd (ground arith)
asleep-wake limit processed (next_line p h) = absurd (ground arith)
asleep-wake limit processed (set_done p i) = absurd (ground arith)
asleep-wake limit processed (signal_done p) = absurd (ground arith)
asleep-wake limit processed (go_on p h) = absurd (ground arith)
asleep-wake limit processed (stop p h) = absurd (ground arith)
asleep-wake limit processed (lock p) = absurd (ground arith)
asleep-wake limit processed (must_wait p n h) = absurd (ground arith)
asleep-wake limit processed (wait p) = absurd (ground arith)
asleep-wake limit processed (relock p) = absurd (ground arith)
asleep-wake limit processed (drain p h) = absurd (ground arith)
asleep-wake limit processed (process p v) = absurd (ground arith)
asleep-wake limit processed (unlock p v) = absurd (ground arith)

-- A mail with fewer emails than `BufferLength` can be processed whole, and `Done` set and signalled
-- between the test and the wait of the calendar's thread: it then sleeps, the other thread is gone,
-- and no step is left but a wake-up that no signal causes.
wake_up-lost :
    (limit : ℕ) (input : List Bytes)
    → length (emails input) < limit
    → Reach limit (start input) (asleep (emails input))
      × ((t : System) → Step limit (asleep (emails input)) t → t.processor ≡ woken)
wake_up-lost limit input h =
    let r = rest_all limit (emails input) (read_all limit input [] h here) in
    let tested = next (next (next r (go_on refl refl)) (lock refl)) (must_wait refl refl refl) in
    (
      next (next (next tested (set_done refl refl)) (signal_done refl)) (wait refl),
      λ t st. asleep-wake limit (emails input) st,
    )
