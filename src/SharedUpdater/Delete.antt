-- ===== src/SharedUpdater/Delete.antt =====
-- `safeSearchEarliestEventByDate`, and the `DeleteEvent` that uses it.
use advanced_systems_program.Prelude.{ℕ, Option, none, some, List, [], ◌∷◌, ◌>>=◌, if◌then◌else◌}
use advanced_systems_program.CLib.{Bytes}
use advanced_systems_program.Updater.Checks.{is_empty}
use advanced_systems_program.Updater.Event.{Event, compare_events}
use advanced_systems_program.Updater.Calendar.{
  Calendar, Outcome, Line, shown, vacated, absent, find, event_at, erase, search_by_date_title_time,
  earliest_loop, search_earliest, if_last,
}

-- `none` is the iterator `end()`, not a fault.
unfoldable pub safe_search_earliest : Bytes → Calendar → Option Event
unfolding earliest_loop find
safe_search_earliest date cal = elim (find date cal) [
  | none ↦ none
  | some x ↦ some (earliest_loop date cal x.event)
]

abbrev pub line_of : Bytes → Option Event → Line
line_of date none = vacated date
line_of date (some next) = shown next

unfoldable pub delete_at : Event → Calendar → Event → ℕ → Event → Calendar × List Line
unfolding safe_search_earliest erase find compare_events
delete_at e cal first i found =
    if compare_events first found
    then (erase cal i, line_of e.date (safe_search_earliest first.date (erase cal i)) ∷ [])
    else (erase cal i, if_last e.date (find e.date (erase cal i)))

unfoldable pub delete_event : Event → Calendar → Outcome
unfolding search_earliest search_by_date_title_time event_at delete_at
delete_event e cal = do
  let iter = search_by_date_title_time e cal
  first ← search_earliest e.date cal
  found_or_absent iter first
  where
    found_or_absent : Option ℕ → Event → Outcome
    found_or_absent iter first =
        if is_empty first.date then some (cal, absent e.date ∷ []) else elim iter [
          | none ↦ none
          | some i ↦ event_at cal (some i) >>= λ found. some (delete_at e cal first i found)
        ]
