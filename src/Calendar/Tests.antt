-- ===== src/Calendar/Tests.antt =====
-- The calendar on stores that can be followed in the source, and the theorems at their inputs.
use advanced_systems_program.Prelude.{
  ◌≡◌, refl, none, some, List, [], ◌∷◌, codes, arith, true, false, ◌++◌,
}
use advanced_systems_program.CLib.{Bytes, same_str, c_str, strtol_two}
use advanced_systems_program.CLib.Tokens.{tokens}
use advanced_systems_program.Calendar.Event.{Event, parse_input}
use advanced_systems_program.Calendar.Event.Parse.{IsEvent}
use advanced_systems_program.Calendar.Event.Result.{Outcome, parse_input-Outcome}
use advanced_systems_program.Calendar.Times.{is_time_earlier, no_time, number_at}
use advanced_systems_program.Calendar.Times.Order.{clock}
use advanced_systems_program.Calendar.Store.{
  Node, Store, null, search, same_title_date_time, search_earliest_by_date, earliest_loop,
  keep_earlier, earlier,
}
use advanced_systems_program.Calendar.Store.Earliest.{all_in_hour}
use advanced_systems_program.Calendar.Store.WellFormed.{IsWellFormed}
use advanced_systems_program.Calendar.Handlers.{create_event, delete_event}
use advanced_systems_program.Calendar.Handlers.Delete.{erase_first}
use advanced_systems_program.Calendar.Handlers.Laws.{delete_event-erase_first}
use advanced_systems_program.Calendar.Handlers.Keeps.{delete_event-create_event}
use advanced_systems_program.Calendar.Program.{main}
use advanced_systems_program.Calendar.Program.Runs.{Safe, main-IsWellFormed}

abbrev appointment : (title time : Bytes) → Event
appointment title time = record {
  action = codes "C" ++ 0 ∷ [];
  title = title ++ 0 ∷ [];
  date = codes "01/02/2020" ++ 0 ∷ [];
  time = time;
  location = codes "locatio   " ++ 0 ∷ [];
}

abbrev lunch : Event
lunch = appointment (codes "lunchlunch") (clock 12 30)

abbrev brunch : Event
brunch = appointment (codes "brunchbrun") (clock 12 15)

abbrev supper : Event
supper = appointment (codes "suppersupp") (clock 19 0)

-- Two events, the first of them with its time after that of the second.
abbrev two_nodes : List Node
two_nodes = record { address = 1; event = lunch } ∷ record { address = 2; event = brunch } ∷ []

abbrev two : Store
two = record { calendar = two_nodes; delete_ptr = null; freed = []; fresh = 3 }

two-IsWellFormed : IsWellFormed two
two-IsWellFormed = record {
  once = λ a ne. ground arith;
  unused = λ a h. ground arith;
  no_null = refl;
  fresh_pos = omega arith;
}

abbrev text : Bytes
text = codes "C,titletitle,01/02/2020,09:30,locationxx\n"

lunch-IsEvent : IsEvent lunch
lunch-IsEvent = record { action = refl; title = refl; date = refl; time = refl; location = refl }

parse_input-Outcome_example : Outcome lunch (tokens text) (parse_input lunch text)
parse_input-Outcome_example = parse_input-Outcome lunch lunch-IsEvent text

two_earliest :
    search_earliest_by_date lunch.date two_nodes ≡ some (record { address = 2; event = brunch })
unfolding search_earliest_by_date earliest_loop keep_earlier earlier is_time_earlier same_str c_str
    no_time number_at strtol_two
two_earliest = refl

two_in_hour : all_in_hour lunch.date 12 two_nodes ≡ true
unfolding same_str c_str
two_in_hour = refl

delete_event-erase_first_example :
    (delete_event lunch two).0.calendar ≡ erase_first (same_title_date_time lunch) two_nodes
delete_event-erase_first_example = delete_event-erase_first lunch two two-IsWellFormed

lunch_is_first : same_title_date_time lunch lunch ≡ true
unfolding same_str c_str
lunch_is_first = refl

brunch_is_second :
    search (same_title_date_time brunch) (record { address = 2; event = brunch } ∷ [])
    ≡ some (record { address = 2; event = brunch })
unfolding search same_str c_str
brunch_is_second = refl

lunch_is_other : same_title_date_time brunch lunch ≡ false
unfolding same_str c_str
lunch_is_other = refl

no_supper : search (same_title_date_time supper) two_nodes ≡ none
unfolding search same_str c_str
no_supper = refl

delete_event-create_event_example :
    (delete_event supper (create_event supper two).0).0.calendar ≡ two_nodes
delete_event-create_event_example = delete_event-create_event supper two two-IsWellFormed no_supper

main-IsWellFormed_example : Safe (main (λ k. lunch) text)
main-IsWellFormed_example = main-IsWellFormed (λ k. lunch) text
