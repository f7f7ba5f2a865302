-- ===== src/Updater/Calendar.antt =====
-- `CalendarFilter`, its searches, and `CreateEvent`, `EditEvent`, `DeleteEvent` and
-- `processCalendar`. The multimap is the list of its entries in the order of an iterator: sorted by
-- key, equal keys in the order of their insertion. An iterator is a position, `none` for `end()`.
-- `none` for a call is one that reads or erases through `end()`.
pub mod Order
pub mod Create
pub mod Delete
pub mod Earliest
pub mod Faults
pub mod Keeps
use advanced_systems_program.Prelude.{
  ℕ, zero, suc, Bool, true, false, ◌&&◌, ◌||◌, not, Option, none, some, List, [], ◌∷◌, ◌==◌, ltb,
  str_eq, if◌then◌else◌, get_or, codes, ◌>>=◌,
}
use advanced_systems_program.Prelude.Int.{ℤ, ltb_ℤ}
use advanced_systems_program.CLib.{Bytes, strtol_two}
use advanced_systems_program.Updater.Checks.{is_empty, check_time}
use advanced_systems_program.Updater.Event.{Event, parse_event, compare_events}

pub record Entry : Type 0 where
  pub key : Bytes
  pub event : Event

abbrev pub Calendar : Type 0
Calendar = List Entry

-- `operator<` of `string`.
unfoldable pub str_ltb : Bytes → Bytes → Bool
str_ltb [] [] = false
str_ltb [] (y ∷ ys) = true
str_ltb (x ∷ xs) [] = false
str_ltb (x ∷ xs) (y ∷ ys) = ltb x y || (x == y && str_ltb xs ys)

-- `emplace`: behind all entries whose key is not greater.
unfoldable pub emplace : Bytes → Event → Calendar → Calendar
emplace key e [] = record { key = key; event = e } ∷ []
emplace key e (x ∷ xs) =
    if str_ltb key x.key then record { key = key; event = e } ∷ x ∷ xs else x ∷ emplace key e xs

-- `find`: the first entry with the key.
unfoldable pub find : Bytes → Calendar → Option Entry
find key [] = none
find key (x ∷ xs) = if str_eq x.key key then some x else find key xs

-- `iter->second`
unfoldable pub event_at : Calendar → Option ℕ → Option Event
event_at cal none = none
event_at [] (some i) = none
event_at (x ∷ xs) (some zero) = some x.event
event_at (x ∷ xs) (some (suc i)) = event_at xs (some i)

-- `iter->second = e`
unfoldable pub assign : Calendar → ℕ → Event → Calendar
assign [] i e = []
assign (x ∷ xs) zero e = record x { event = e } ∷ xs
assign (x ∷ xs) (suc i) e = x ∷ assign xs i e

unfoldable pub erase : Calendar → ℕ → Calendar
erase [] i = []
erase (x ∷ xs) zero = xs
erase (x ∷ xs) (suc i) = x ∷ erase xs i

-- The position of the first entry whose event passes the test.
unfoldable pub position : (Event → Bool) → Calendar → Option ℕ
position test [] = none
position test (x ∷ xs) =
    let rest = position test xs in
    if test x.event then some 0 else elim rest [ none ↦ none | some i ↦ some (suc i) ]

unfoldable pub search_by_title : Bytes → Calendar → Option ℕ
unfolding position
search_by_title title = position λ e. str_eq e.title title

unfoldable pub search_by_date_title_time : Event → Calendar → Option ℕ
unfolding position
search_by_date_title_time d =
    position λ e. str_eq e.time d.time && (str_eq e.title d.title && str_eq e.date d.date)

-- `strtol` of `substr(0, 2)`, and of `substr(3, 2)`.
unfoldable pub hours : Bytes → ℤ
hours time = strtol_two (get_or time 0 0) (get_or time 1 0)

unfoldable pub minutes : Bytes → ℤ
minutes time = strtol_two (get_or time 3 0) (get_or time 4 0)

-- `CompareTime`: true if the first is earlier; false too if one of them is no time.
unfoldable pub compare_time : Bytes → Bytes → Bool
unfolding hours minutes
compare_time s t =
    if not (check_time s) || not (check_time t)
    then false
    else if ltb_ℤ (hours s) (hours t)
    then true
    else if ltb_ℤ (hours t) (hours s)
    then false
    else ltb_ℤ (minutes s) (minutes t)

-- The loop of `searchEarliestEventByDate`.
unfoldable pub earliest_loop : Bytes → Calendar → Event → Event
unfolding compare_time
earliest_loop date [] best = best
earliest_loop date (x ∷ xs) best = earliest_loop date xs (
    if str_eq x.event.date date && not (compare_time best.time x.event.time) then x.event else best)

unfoldable pub search_earliest : Bytes → Calendar → Option Event
unfolding earliest_loop find
search_earliest date cal = elim (find date cal) [
  | none ↦ none
  | some x ↦ some (earliest_loop date cal x.event)
]

-- What is printed: the date, time and location, or a date without events.
pub data Line : Type 0 where
  shown : Event → Line
  vacated : Bytes → Line
  absent : Bytes → Line

-- The calendar after a call, and the lines that it printed.
abbrev pub Outcome : Type 0
Outcome = Option (Calendar × List Line)

abbrev pub show_if : Bool → Event → List Line
show_if test e = if test then shown e ∷ [] else []

unfoldable pub create_event : Event → Calendar → Outcome
unfolding search_earliest emplace find compare_events
create_event e cal = elim (find e.date cal) [
  | none ↦ some (emplace e.date e cal, shown e ∷ [])
  | some x ↦ do
    let cal' = emplace e.date e cal
    first ← search_earliest e.date cal'
    some (cal', show_if (not (is_empty first.date) && compare_events first e) e)
]

unfoldable pub edit_event : Event → Calendar → Outcome
unfolding search_earliest search_by_title assign compare_events
edit_event e cal = elim (search_by_title e.title cal) [
  | none ↦ some (cal, [])
  | some i ↦ do
    let cal' = assign cal i e
    first ← search_earliest e.date cal'
    some (cal', show_if (not (is_empty first.date) && compare_events e first) e)
]

-- The line after `erase` of the earliest event.
abbrev pub after_erase : Bytes → Event → List Line
after_erase date first = if is_empty first.date then vacated date ∷ [] else shown first ∷ []

-- The line after `erase` of another event.
abbrev pub if_last : Bytes → Option Entry → List Line
if_last date none = vacated date ∷ []
if_last date (some x) = []

-- `DeleteEvent` with the event at position `i`.
unfoldable pub delete_at : Event → Calendar → Event → ℕ → Event → Outcome
unfolding search_earliest erase find compare_events
delete_at e cal first i found =
    let second = search_earliest e.date (erase cal i) in
    if compare_events first found
    then (do next ← second; some (erase cal i, after_erase e.date next))
    else some (erase cal i, if_last e.date (find e.date (erase cal i)))

unfoldable pub delete_event : Event → Calendar → Outcome
unfolding search_earliest search_by_date_title_time event_at delete_at
delete_event e cal = do
  let iter = search_by_date_title_time e cal
  first ← search_earliest e.date cal
  found_or_absent iter first
  where
    found_or_absent : Option ℕ → Event → Outcome
    found_or_absent iter first =
        if is_empty first.date
        then some (cal, absent e.date ∷ [])
        else elim iter [ none ↦ none | some i ↦ event_at cal (some i) >>= delete_at e cal first i ]

-- `processCalendar`
unfoldable pub process : Bytes → Calendar → Outcome
unfolding create_event edit_event delete_event parse_event
process [] cal = some (cal, [])
process (c ∷ cs) cal =
    let e = parse_event (c ∷ cs) in
    if str_eq e.action (codes "C")
    then create_event e cal
    else if str_eq e.action (codes "X")
    then edit_event e cal
    else if str_eq e.action (codes "D")
    then delete_event e cal
    else some (cal, [])
