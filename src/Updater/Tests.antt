-- ===== src/Updater/Tests.antt =====
-- A small mail and a small calendar.
use advanced_systems_program.Prelude.{
  ◌≡◌, refl, ap, ◌∙◌, ◌≤◌, ◌<◌, true, none, some, List, [], ◌∷◌, ◌++◌, ◌==◌, codes, length, all,
  arith,
}
use advanced_systems_program.CLib.{Bytes, is_digit, is_space, digit_or_zero, c_str, strtol_two}
use advanced_systems_program.CLib.Search.{behind}
use advanced_systems_program.CLib.Streams.{up_to, taken, get_line, get_lines, all_lines, parts}
use advanced_systems_program.CLib.Strtol.{strtol, skip_spaces, digits_value}
use advanced_systems_program.Updater.Checks.{
  check_action, check_title, check_date, check_time, check_location, check_parts, check_email,
  is_number,
}
use advanced_systems_program.Updater.Checks.Accepts.{
  five_parts, check_email-five_parts, digits-check_date_time,
}
use advanced_systems_program.Updater.Event.{Event, parse_event, compare_events}
use advanced_systems_program.Updater.Calendar.{
  Line, Calendar, str_ltb, emplace, find, event_at, erase, position, search_by_title,
  search_by_date_title_time, hours, minutes, compare_time, earliest_loop, search_earliest, shown,
  show_if, create_event, delete_event, process,
}
use advanced_systems_program.Updater.Calendar.Order.{is_sorted}
use advanced_systems_program.Updater.Calendar.Earliest.{not_earlier}
use advanced_systems_program.Updater.Calendar.Create.{create_event-shown}
use advanced_systems_program.Updater.Calendar.Delete.{events_of}
use advanced_systems_program.Updater.Calendar.Faults.{delete_event-last, delete_event-rest}
use advanced_systems_program.Updater.Mail.{
  process_all, is_accepted, is_create, mail-calendar, mail-creates,
}
use advanced_systems_program.Updater.Threads.{
  parse_arguments, after_subject, found_email, emails, System, start, Reach, ended, signalling,
  gone,
}
use advanced_systems_program.Updater.Threads.Delivery.{ended-lost}
use advanced_systems_program.Updater.Threads.Races.{ended-nothing_processed}

abbrev good : Bytes
good = codes "C,titletitle,01/02/2020,09:30,locationxx"

good_accepted : check_email good ≡ true
unfolding check_email check_parts all_lines get_lines get_line up_to taken check_action check_title
    check_date check_time check_location is_number is_digit
good_accepted = refl

check_email-five_parts_example : check_email good ≡ five_parts (parts b',' good)
check_email-five_parts_example = check_email-five_parts good

abbrev half_past : Bytes
half_past = codes "09:30"

abbrev ten_digits : Bytes
ten_digits = codes "0102032020"

ten_digits-digits : all is_digit ten_digits ≡ true
unfolding is_digit
ten_digits-digits = refl

digits-check_date_time_example :
    (check_date ten_digits ≡ (length ten_digits == 10))
    × (check_time ten_digits ≡ (length ten_digits == 5))
digits-check_date_time_example = digits-check_date_time ten_digits ten_digits-digits

abbrev day : Bytes
day = codes "01/02/2020"

abbrev event : Bytes → Bytes → Event
event title time = record {
  action = codes "C";
  title = title;
  date = day;
  time = time;
  location = codes "locationxx";
}

abbrev early : Event
early = event (codes "breakfast1") (codes "08:00")

abbrev late : Event
late = event (codes "dinner2021") (codes "19:00")

abbrev two : Calendar
two = record { key = day; event = early } ∷ record { key = day; event = late } ∷ []

abbrev noon : Event
noon = event (codes "lunchlunch") (codes "12:00")

two_sorted : is_sorted two ≡ true
unfolding is_sorted str_ltb
two_sorted = refl

noon_timed : check_time noon.time ≡ true
unfolding check_time all_lines get_lines get_line up_to taken is_number is_digit
noon_timed = refl

two_timed : all (λ x. check_time x.event.time) two ≡ true
unfolding check_time all_lines get_lines get_line up_to taken is_number is_digit
two_timed = refl

noon_quiet : create_event noon two ≡ some (emplace day noon two, [])
unfolding create_event search_earliest earliest_loop find emplace str_ltb compare_events
    compare_time hours minutes strtol_two is_space digit_or_zero check_time all_lines get_lines
    get_line up_to taken is_number is_digit
noon_quiet = refl

create_event-shown_example :
    create_event noon two
    ≡ some (emplace day noon two, show_if (all (not_earlier day noon.time) two) noon)
create_event-shown_example =
    create_event-shown noon two two_sorted refl two_timed noon_timed refl refl

one_event : events_of day (record { key = day; event = early } ∷ []) ≤ 1
unfolding events_of
one_event = omega arith

delete_event-last_example : delete_event early (record { key = day; event = early } ∷ []) ≡ none
delete_event-last_example =
    delete_event-last early (record { key = day; event = early } ∷ []) refl refl refl one_event

early-first : search_by_date_title_time early two ≡ some 0
unfolding search_by_date_title_time position
early-first = refl

two_events : 2 ≤ events_of day two
unfolding events_of
two_events = omega arith

delete_event-rest_example :
    (first found next : Event) × (search_earliest day two ≡ some first)
    × (event_at two (some 0) ≡ some found)
    × (search_earliest day (erase two 0) ≡ some next)
    × (next.date ≡ day)
    × (delete_event early two ≡ some (erase two 0, show_if (compare_events first found) next))
delete_event-rest_example = delete_event-rest early two 0 refl refl early-first two_events

abbrev moved : Event
moved = record early { action = codes "X"; date = codes "02/02/2020" }

moved_found : search_by_title moved.title two ≡ some 0
unfolding search_by_title position
moved_found = refl

no_such_day : find moved.date two ≡ none
unfolding find
no_such_day = refl

abbrev one_good : Calendar
one_good = record { key = day; event = event (codes "titletitle") (codes "09:30") } ∷ []

good_processed :
    process good [] ≡ some (one_good, shown (event (codes "titletitle") (codes "09:30")) ∷ [])
unfolding process parse_event create_event find emplace get_line up_to taken
good_processed = refl

empty_sorted : is_sorted [] ≡ true
unfolding is_sorted
empty_sorted = refl

two_to_the_32 : parse_arguments (codes "updater" ∷ codes "4294967296" ∷ []) ≡ some 0
unfolding parse_arguments strtol skip_spaces digits_value is_space is_digit
two_to_the_32 = refl

abbrev mail : List Bytes
mail = codes "Subject: C,titletitle,01/02/2020,09:30,locationxx" ∷ codes "noise" ∷ []

mail-emails : emails mail ≡ good ∷ []
unfolding emails found_email after_subject behind c_str check_email check_parts all_lines get_lines
    get_line up_to taken check_action check_title check_date check_time check_location is_number
    is_digit
mail-emails = refl

few_emails : length (emails mail) < 2
few_emails = rw mail-emails (omega arith)

abbrev first_read : System
first_read = record (start mail) {
  input = codes "noise" ∷ [];
  parser = signalling;
  valid_emails = [] ++ found_email (codes "Subject: C,titletitle,01/02/2020,09:30,locationxx");
}

over : Reach 2 (start mail) (record {
  input = [];
  parser = gone;
  processor = ended;
  valid_emails = emails mail;
  done = true;
  processed = [];
})
over = ended-nothing_processed 2 mail few_emails

ended-lost_example : ([] ++ emails mail ≡ emails mail) × (length (emails mail) < 2)
ended-lost_example = ended-lost 2 mail (omega arith) over refl

mail-run :
    process_all (emails mail) []
    ≡ some (one_good, shown (event (codes "titletitle") (codes "09:30")) ∷ [])
unfolding process_all
mail-run = ap (λ es. process_all es []) mail-emails ∙ rw good_processed refl

mail-calendar_example : (is_sorted one_good ≡ true) × (all is_accepted one_good ≡ true)
mail-calendar_example = mail-calendar mail mail-run

good_creates : all is_create (good ∷ []) ≡ true
unfolding parse_event get_line up_to taken
good_creates = refl

mail-creates_example : (out : Calendar × List Line) × (process_all (emails mail) [] ≡ some out)
mail-creates_example = mail-creates mail (ap (all is_create) mail-emails ∙ good_creates)
