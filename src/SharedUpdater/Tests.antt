-- ===== src/SharedUpdater/Tests.antt =====
-- A ring of two arrays, and a date with one event and with two.
use advanced_systems_program.Prelude.{
  ◌≡◌, refl, ap, ◌∙◌, inl, all, ◌≤◌, ◌<◌, true, some, List, [], ◌∷◌, ◌++◌, codes, arith, length,
  drop, replicate,
}
use advanced_systems_program.CLib.{Bytes, is_digit, c_str}
use advanced_systems_program.CLib.Search.{behind}
use advanced_systems_program.CLib.Streams.{up_to, taken, get_line, get_lines, all_lines}
use advanced_systems_program.Updater.Checks.{
  check_action, check_title, check_date, check_time, check_location, check_parts, check_email,
  is_number,
}
use advanced_systems_program.Updater.Threads
use advanced_systems_program.Updater.Threads.{
  after_subject, found_email, emails, gone, ended, signalling, draining,
}
use advanced_systems_program.SharedUpdater.Processes
use advanced_systems_program.SharedUpdater.Mail.{process, process_all, processed-calendar}
use advanced_systems_program.Updater.Mail.{is_accepted}
use advanced_systems_program.Updater.Calendar.Order.{is_sorted}
use advanced_systems_program.SharedUpdater.Processes.{
  go_on, lock, drain, System, start, write_emails, parse_line, next_line, set_done, signal_done,
  stop, Reach, here, next,
}
use advanced_systems_program.SharedUpdater.Processes.Simulation.{
  view, processes-threads, email-fits, email-read, ended-left,
}
use advanced_systems_program.Updater.Event.{Event, parse_event}
use advanced_systems_program.Updater.Calendar
use advanced_systems_program.Updater.Calendar.{
  Calendar, shown, create_event, find, emplace, erase, vacated, position, search_by_date_title_time,
}
use advanced_systems_program.Updater.Calendar.Delete.{events_of}
use advanced_systems_program.SharedUpdater.{
  read_email, take_email, read_slot, Ring, default_length, put, overlay, write_email, empty_ring,
  Op, add, remove, run_ring,
}
use advanced_systems_program.SharedUpdater.Delete.{delete_event}
use advanced_systems_program.SharedUpdater.Queue.{IsText, Represents}
use advanced_systems_program.SharedUpdater.Refinement.{AreAdded, run_queue, ring-queue}
use advanced_systems_program.SharedUpdater.Vacated.{delete_event-vacated}

abbrev ops : List Op
ops =
    add (codes "first") ∷ add (codes "second") ∷ remove ∷ add (codes "third") ∷ remove ∷ remove ∷ []

in_order : run_queue 2 ops [] ≡ some (codes "first" ∷ codes "second" ∷ codes "third" ∷ [])
unfolding run_queue
in_order = refl

ops_added : AreAdded ops
ops_added =
    let first : IsText (codes "first") = record { short = omega arith; no_zero = refl } in
    let second : IsText (codes "second") = record { short = omega arith; no_zero = refl } in
    let third : IsText (codes "third") = record { short = omega arith; no_zero = refl } in
    (first, (second, (third, tt)))

ring-queue_example : run_ring 2 ops empty_ring ≡ run_queue 2 ops []
ring-queue_example = ring-queue 2 ops (omega arith) ops_added

abbrev day : Bytes
day = codes "01/02/2020"

abbrev meal : Bytes → Bytes → Event
meal title time = record {
  action = codes "C";
  title = title;
  date = day;
  time = time;
  location = codes "locationxx";
}

abbrev breakfast : Event
breakfast = meal (codes "breakfast1") (codes "08:00")

abbrev dinner : Event
dinner = meal (codes "dinner2021") (codes "19:00")

abbrev one : Calendar.Calendar
one = record { key = day; event = breakfast } ∷ []

abbrev two : Calendar.Calendar
two = record { key = day; event = breakfast } ∷ record { key = day; event = dinner } ∷ []

found_in_one : search_by_date_title_time breakfast one ≡ some 0
unfolding search_by_date_title_time position
found_in_one = refl

found_in_two : search_by_date_title_time breakfast two ≡ some 0
unfolding search_by_date_title_time position
found_in_two = refl

one_event : events_of day one ≤ 1
unfolding events_of
one_event = omega arith

two_events : 2 ≤ events_of day two
unfolding events_of
two_events = omega arith

delete_event-vacated_example : delete_event breakfast one ≡ some (erase one 0, vacated day ∷ [])
delete_event-vacated_example =
    delete_event-vacated breakfast one 0 refl refl refl found_in_one one_event

abbrev good : Bytes
good = codes "C,titletitle,01/02/2020,09:30,locationxx"

abbrev line : Bytes
line = codes "Subject: C,titletitle,01/02/2020,09:30,locationxx"

line-good : found_email line ≡ good ∷ []
unfolding found_email after_subject behind c_str check_email check_parts all_lines get_lines
    get_line up_to taken check_action check_title check_date check_time check_location is_number
    is_digit
line-good = refl

abbrev filled : Ring
filled = record empty_ring {
  valid_emails =
      put empty_ring.valid_emails 0 (good ++ drop (length good) (replicate default_length 0));
  email_count = 1;
  buffer_write = 1;
}

line_written : write_emails 2 (found_email line) empty_ring ≡ some filled
unfolding write_emails write_email overlay
line_written = rw line-good refl

abbrev mail : List Bytes
mail = line ∷ []

abbrev left : System
left = record {
  input = [];
  parser = gone;
  processor = ended;
  ring = filled;
  done = true;
  processed = [];
}

to_left : Reach 2 (start mail) left
to_left =
    let r1 = next {t = start mail} here (parse_line refl refl refl line_written) in
    let r2 = next r1 (next_line refl (omega arith)) in
    let r3 = next r2 (set_done refl refl) in next (next r3 (signal_done refl)) (stop refl refl)

processes-threads_example :
    (q : List Bytes) × Threads.Reach 2 (Threads.start mail) (view left q) × Represents 2 q filled
processes-threads_example = processes-threads 2 mail (omega arith) refl to_left

email-fits_example : (ring : Ring) × (write_emails 2 (found_email line) empty_ring ≡ some ring)
email-fits_example =
    email-fits 2 mail {s = start mail} {line = line} {lines = []} (omega arith) refl here refl refl

-- The email is written, and not yet read.
abbrev written : System
written = record (start mail) { input = []; parser = signalling; ring = filled }

email-read_example :
    (email : Bytes) × (ring : Ring) × (rest : List Bytes) × (read_email 2 filled
      ≡ some (email, ring))
    × ([] ++ email ∷ rest ≡ emails mail)
email-read_example =
    email-read 2 mail {s = written} (omega arith) refl
      (next {t = start mail} here (parse_line refl refl refl line_written)) (omega arith)

ended-left_example :
    (q : List Bytes) × ([] ++ q ≡ emails mail) × (filled.email_count ≡ length q) × (length q < 2)
ended-left_example = ended-left 2 mail (omega arith) refl to_left refl

-- The process of the calendar takes the email while the mail is still open.
abbrev taking : System
taking = record (start mail) {
  input = [];
  parser = signalling;
  processor = draining;
  ring = (take_email 2 filled).1;
  processed = (take_email 2 filled).0 ∷ [];
}

filled_read : read_email 2 filled ≡ some (take_email 2 filled)
unfolding read_email
filled_read = refl

to_taking : Reach 2 (start mail) taking
to_taking =
    let r1 = next {t = start mail} here (parse_line refl refl refl line_written) in
    let r2 = next r1 (go_on refl refl) in
    let r3 = next r2 (lock refl) in
    let r4 = next r3 (drain refl (inl (omega arith))) in
    next r4 (Processes.process refl (omega arith) filled_read)

good_read : (take_email 2 filled).0 ≡ good
unfolding take_email read_slot c_str
good_read = refl

abbrev good_entry : Calendar
good_entry = record { key = codes "01/02/2020"; event = parse_event good } ∷ []

good_processed : process good [] ≡ some (good_entry, shown (parse_event good) ∷ [])
unfolding process parse_event create_event find emplace get_line up_to taken
good_processed = refl

taking_processed :
    process_all taking.processed [] ≡ some (good_entry, shown (parse_event good) ∷ [])
unfolding process_all
taking_processed = ap (λ e. process_all (e ∷ []) []) good_read ∙ rw good_processed refl

processed-calendar_example : (is_sorted good_entry ≡ true) × (all is_accepted good_entry ≡ true)
processed-calendar_example = processed-calendar 2 mail (omega arith) refl to_taking taking_processed
