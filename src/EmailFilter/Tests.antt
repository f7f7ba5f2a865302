-- ===== src/EmailFilter/Tests.antt =====
-- The filter on lines that can be followed in the source, and the theorems at their inputs.
use advanced_systems_program.Prelude.{
  ◌≡◌, refl, some, none, codes, length, map, ◌-◌, ◌∷◌, ◌++◌, if◌then◌else◌,
}
use advanced_systems_program.Prelude.Int.{pos}
use advanced_systems_program.CLib.{Bytes, c_str, is_digit}
use advanced_systems_program.CLib.Tokens.{strtok, tokens}
use advanced_systems_program.CLib.Lines.{fgets_lines, join}
use advanced_systems_program.EmailFilter.Machine.{five_fields, is_well_formed-five_fields}
use advanced_systems_program.EmailFilter.Run.{select, is_event, printed, main-select}
use advanced_systems_program.EmailFilter.{
  is_well_formed, turn, check_action, check_title_location_length, check_date, check_time,
  digits_outside, filter_line, main, buffer_size,
}

abbrev good : Bytes
good = codes "C,titletitle,01/02/2020,09:30,locationxx\n"

good_accepted : is_well_formed good ≡ some (pos 0)
unfolding is_well_formed turn check_action check_title_location_length check_date check_time
    digits_outside strtok is_digit
good_accepted = refl

short_line : filter_line (codes "Hi\n") ≡ none
unfolding filter_line is_well_formed turn strtok c_str
short_line = refl

abbrev mail : Bytes
mail = codes "Subject: C,titletitle,01/02/2020,09:30,locationxx\nnoise\n"

main-mail : main mail ≡ (good, 1)
unfolding main filter_line is_well_formed turn check_action check_title_location_length check_date
    check_time digits_outside strtok is_digit fgets_lines c_str
main-mail = refl

-- A line with a 0 byte behind its event.
abbrev cut_mail : Bytes
cut_mail = codes "Subject: C,titletitle,01/02/2020,09:30,locationxx" ++ 0 ∷ codes "junk\n"

main-cut_mail : main cut_mail ≡ (codes "C,titletitle,01/02/2020,09:30,locationxx", 1)
unfolding main filter_line is_well_formed turn check_action check_title_location_length check_date
    check_time digits_outside strtok is_digit fgets_lines c_str
main-cut_mail = refl

is_well_formed-five_fields_example :
    is_well_formed good ≡ some (if five_fields (tokens good) then pos 0 else pos 1)
is_well_formed-five_fields_example = is_well_formed-five_fields good

main-select_example :
    let events = select is_event (fgets_lines (buffer_size - 1) cut_mail) in
    main cut_mail ≡ (join (map printed events), length events)
main-select_example = main-select cut_mail

abbrev day : Bytes
day = codes "01/02/2020"

abbrev half_past : Bytes
half_past = codes "09:30"

abbrev room : Bytes
room = codes "locationxx"
