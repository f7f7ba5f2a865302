-- ===== src/Pipeline/Tests.antt =====
-- The theorems on the three programs at concrete inputs.
use advanced_systems_program.Prelude.{
  ℕ, ◌≡◌, refl, true, some, List, [], ◌∷◌, all, codes, replicate,
}
use advanced_systems_program.Prelude.Int.{pos}
use advanced_systems_program.CLib.{Bytes, c_str, is_digit}
use advanced_systems_program.CLib.Tokens.{tokens, strtok}
use advanced_systems_program.EmailFilter.{
  is_well_formed, turn, check_action, check_title_location_length, check_date, check_time,
  digits_outside,
}
use advanced_systems_program.Calendar.Event.{Event}
use advanced_systems_program.Calendar.Event.Parse.{IsEvent}
use advanced_systems_program.CLib.Lines.{lines_from, fgets_lines}
use advanced_systems_program.EmailFilter.Machine.{five_fields}
use advanced_systems_program.EmailFilter.Run.{is_event, select}
use advanced_systems_program.Calendar.Program.{empty_store}
use advanced_systems_program.Pipeline.Run.{
  Programs, AreParsed, is_plain, perform_all, location_updater, location_updater-perform_all,
}

abbrev blank : Event
blank = record {
  action = replicate 2 0;
  title = replicate 11 0;
  date = replicate 11 0;
  time = replicate 6 0;
  location = replicate 11 0;
}

blank-IsEvent : IsEvent blank
blank-IsEvent = record { action = refl; title = refl; date = refl; time = refl; location = refl }

abbrev meeting : Bytes
meeting = codes "C,titletitle,01/02/2020,09:30,locationxx\n"

tokens-meeting :
    tokens meeting
    ≡ codes "C"
      ∷ codes "titletitle"
      ∷ codes "01/02/2020"
      ∷ codes "09:30"
      ∷ codes "locationxx\n"
      ∷ []
unfolding tokens
tokens-meeting = refl

meeting_accepted : is_well_formed meeting ≡ some (pos 0)
unfolding is_well_formed turn check_action check_title_location_length check_date check_time
    digits_outside strtok is_digit
meeting_accepted = refl

abbrev out : ℕ
out = 1

abbrev both : Programs
both = record { has_filter = true; has_calendar = true }

-- A mail with one event.
abbrev mail : Bytes
mail = codes "Subject: C,titletitle,01/02/2020,09:30,locationxx\n"

mail_plain : all is_plain (select is_event (fgets_lines 1999 mail)) ≡ true
unfolding fgets_lines lines_from select tokens five_fields check_action check_title_location_length
    check_date check_time digits_outside is_digit c_str
mail_plain = refl

location_updater-perform_all_example :
    (es : List Event) × AreParsed (λ k. blank) 0 (select is_event (fgets_lines 1999 mail)) es
    × (location_updater both (λ k. blank) mail ≡ some (perform_all es empty_store))
location_updater-perform_all_example =
    location_updater-perform_all both (λ k. blank) mail refl refl (λ k. blank-IsEvent) mail_plain
