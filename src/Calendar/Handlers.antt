-- ===== src/Calendar/Handlers.antt =====
-- `CreateEvent`, `EditEvent`, `DeleteEvent` and `ProcessCalendar` of Assignment1/calendar_filter.c:
-- each gives the new store and the lines that it prints.
pub mod Delete
pub mod Keeps
pub mod Laws
use advanced_systems_program.Prelude.{
  ℕ, Bool, true, false, not, ◌&&◌, Option, none, some, List, [], ◌∷◌, ◌++◌, ◌==◌, if◌then◌else◌,
  codes, get_or,
}
use advanced_systems_program.Prelude.Int.{ℤ, is_zero}
use advanced_systems_program.CLib.{Bytes, c_str, same_str}
use advanced_systems_program.Calendar.Event.{Event}
use advanced_systems_program.Calendar.Store.{
  Node, Store, null, search_by_title, search_by_date, search_by_title_date_time,
  search_earliest_by_date, append_event, compare_events, Deletion, delete_node, write_event,
}

-- A printed line: date, time and location; a date with no event left; and the messages.
pub data Line : Type 0 where
  shown : Bytes → Bytes → Bytes → Line
  vacated : Bytes → Line
  no_title : Line
  unparsed : Line
  unknown_action : Line

-- `printf("%s,%s,%s \n", …)`
unfoldable pub show : Event → Line
show e = shown (c_str e.date) (c_str e.time) (c_str e.location)

-- The bytes that `printf` writes.
unfoldable pub render : Line → Bytes
render (shown d t l) = d ++ b',' ∷ (t ++ b',' ∷ (l ++ codes " \n"))
render (vacated d) = d ++ codes ",--:--,NA\n"
render no_title = codes "EditEvent: Title does not exist\n"
render unparsed = codes "Event could not be parsed \n"
render unknown_action = codes "Default\n"

abbrev pub Outcome : Type 0
Outcome = Store × List Line

-- The event is printed if the earliest of its date looks like it.
unfoldable pub show_if_equal : Event → Option Node → List Line
show_if_equal e none = []
show_if_equal e (some n) =
    if same_str n.event.action e.action
      && same_str n.event.date e.date
      && same_str n.event.location e.location
      && same_str n.event.time e.time
    then show n.event ∷ []
    else []

unfoldable pub create_found : Event → Store → Option Node → Outcome
unfolding show_if_equal
create_found e s none = (append_event e s, show e ∷ [])
create_found e s (some n) =
    let s' = append_event e s in (s', show_if_equal e (search_earliest_by_date e.date s'.calendar))

unfoldable pub create_event : Event → Store → Outcome
unfolding create_found
create_event e s = create_found e s (search_by_date e.date s.calendar)

unfoldable pub show_if_moved : Bool → Event → Option Node → List Line
show_if_moved moved e none = []
show_if_moved moved e (some n) =
    if moved && is_zero (compare_events n.event e) then show n.event ∷ [] else []

unfoldable pub edit_found : Event → Store → Option Node → Outcome
unfolding show_if_moved
edit_found e s none = (s, no_title ∷ [])
edit_found e s (some n) =
    let moved = not (same_str e.location n.event.location) in
    let cells = write_event n.address e s.calendar in
    (record s { calendar = cells }, show_if_moved moved e (search_earliest_by_date e.date cells))

unfoldable pub edit_event : Event → Store → Outcome
unfolding edit_found
edit_event e s = edit_found e s (search_by_title e.title s.calendar)

-- `if (deletePtr) { if (deletePtr == calendarPtr) { … } }`
unfoldable pub drop_deleted_head : List Node → Store → Store
drop_deleted_head [] s = s
drop_deleted_head (n ∷ ns) s =
    if not (s.delete_ptr == null) && s.delete_ptr == n.address
    then record s { calendar = ns; delete_ptr = null; freed = s.delete_ptr ∷ s.freed }
    else s

-- `calendarPtr = deleteNode(calendarPtr, temp)` and the test behind it.
unfoldable pub remove : Node → Store → Store
unfolding drop_deleted_head
remove n s =
    let d = delete_node s.calendar n.address s.delete_ptr s.freed in
    drop_deleted_head d.nodes
      (record s { calendar = d.nodes; delete_ptr = d.pending; freed = d.gone })

unfoldable pub show_next : Option Node → List Line
show_next none = []
show_next (some n) = show n.event ∷ []

unfoldable pub say_vacated : Event → Option Node → List Line
say_vacated e none = vacated (c_str e.date) ∷ []
say_vacated e (some n) = []

unfoldable pub looks_earliest : Node → Option Node → Bool
looks_earliest n none = false
looks_earliest n (some m) = is_zero (compare_events n.event m.event)

unfoldable pub delete_found : Event → Store → Option Node → Outcome
unfolding remove show_next say_vacated looks_earliest
delete_found e s none = (s, [])
delete_found e s (some n) =
    let s' = remove n s in
    let next =
      if looks_earliest n (search_earliest_by_date e.date s.calendar)
      then show_next (search_earliest_by_date e.date s'.calendar)
      else [] in
    (s', next ++ say_vacated e (search_by_date e.date s'.calendar))

unfoldable pub delete_event : Event → Store → Outcome
unfolding delete_found
delete_event e s = delete_found e s (search_by_title_date_time e s.calendar)

-- The switch on `Event.Action[0]`.
unfoldable pub process_calendar : Event → Store → Outcome
process_calendar e s =
    let c = get_or e.action 0 0 in
    if c == b'C'
    then create_event e s
    else if c == b'X'
    then edit_event e s
    else if c == b'D'
    then delete_event e s
    else (s, unknown_action ∷ [])
