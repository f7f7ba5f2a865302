-- ===== src/SharedUpdater/Vacated.antt =====
-- What this `DeleteEvent` does where that of Assignment2 does not return, and where it does.
use advanced_systems_program.Prelude.{
  ℕ, ◌≤◌, ◌≡◌, refl, sym, ap, ◌∙◌, true, false, none, some, [], ◌∷◌, all, str_eq, eq_of_str_eq,
  arith, Bool-cases, inl, inr,
}
use advanced_systems_program.CLib.{Bytes}
use advanced_systems_program.Updater.Checks.{is_empty}
use advanced_systems_program.Updater.Event.{Event, compare_events}
use advanced_systems_program.Updater.Calendar.{
  Calendar, Outcome, shown, vacated, find, event_at, erase, search_by_date_title_time,
  search_earliest, if_last, show_if,
}
use advanced_systems_program.Updater.Calendar
use advanced_systems_program.Updater.Calendar.Order.{all-erase}
use advanced_systems_program.Updater.Calendar.Earliest.{is_matched}
use advanced_systems_program.Updater.Calendar.Create.{compare_events_refl}
use advanced_systems_program.Updater.Calendar.Delete.{
  events_of, has_action, events_of-erase, search_earliest-all, on_date, only_equal,
  has_action-event_at, search_earliest-none_of,
}
use advanced_systems_program.Updater.Calendar.Faults.{located, delete_event-rest}
use advanced_systems_program.SharedUpdater.Delete.{safe_search_earliest, delete_at, delete_event}

safe-search_earliest :
    (date : Bytes) (cal : Calendar) → safe_search_earliest date cal ≡ search_earliest date cal
unfolding safe_search_earliest search_earliest
safe-search_earliest date cal = refl

delete_event-delete_at :
    (e : Event) (cal : Calendar) {i : ℕ} {first found : Event}
    → search_by_date_title_time e cal ≡ some i
    → search_earliest e.date cal ≡ some first
    → event_at cal (some i) ≡ some found
    → is_empty first.date ≡ false
    → delete_event e cal ≡ some (delete_at e cal first i found)
unfolding delete_event
delete_event-delete_at e cal s f a d = rw (s, f) (rw (d, a) refl)

first-date :
    (e : Event) (cal : Calendar) {first : Event}
    → all is_matched cal ≡ true
    → search_earliest e.date cal ≡ some first
    → first.date ≡ e.date
first-date e cal {first} m f =
    eq_of_str_eq first.date e.date
      (search_earliest-all (λ x. str_eq x.date e.date) e.date cal m (on_date e.date cal) f)

delete_at-vacated :
    (e : Event) (cal : Calendar) (first : Event) (i : ℕ) (found : Event)
    → compare_events first found ≡ true
    → first.date ≡ e.date
    → search_earliest e.date (erase cal i) ≡ none
    → delete_at e cal first i found ≡ (erase cal i, vacated e.date ∷ [])
unfolding delete_at
delete_at-vacated e cal first i found c d n =
    rw (delete_at, c) (rw (d, safe-search_earliest e.date (erase cal i), n) refl)

-- If every entry stands under the date of its event, every event has an action, and the date is not
-- empty, then `DeleteEvent` for an event that the calendar has with this date, title and time, and
-- that is the only one of the date, erases it and prints that the date has none left.
pub delete_event-vacated :
    (e : Event) (cal : Calendar) (i : ℕ)
    → all is_matched cal ≡ true
    → all has_action cal ≡ true
    → is_empty e.date ≡ false
    → search_by_date_title_time e cal ≡ some i
    → events_of e.date cal ≤ 1
    → delete_event e cal ≡ some (erase cal i, vacated e.date ∷ [])
delete_event-vacated e cal i m a d s n =
    let f = located e cal i m d s in
    let c = compare_events_refl f.found (has_action-event_at cal i a f.at_i) in
    let one = events_of-erase e.date cal i f.at_i f.on in
    let all_equal = only_equal e.date cal i f.at_i f.on c n in
    let equal =
      search_earliest-all (λ x. compare_events x f.found) e.date cal m all_equal f.first_of in
    let gone =
      search_earliest-none_of e.date (erase cal i) (omega arith) (all-erase is_matched cal i m) in
    let date = first-date e cal m f.first_of in
    delete_event-delete_at e cal s f.first_of f.at_i (ap is_empty date ∙ d)
    ∙ ap (λ o. some o) (delete_at-vacated e cal f.first i f.found equal date gone)

delete_at-rest :
    (e : Event) (cal : Calendar) (first : Event) (i : ℕ) (found next : Event)
    → first.date ≡ e.date
    → search_earliest e.date (erase cal i) ≡ some next
    → delete_at e cal first i found ≡ (erase cal i, show_if (compare_events first found) next)
unfolding delete_at search_earliest
delete_at-rest e cal first i found next d n = elim (Bool-cases (compare_events first found)) [
  | inl c ↦ rw (delete_at, c) (rw (d, safe-search_earliest e.date (erase cal i), n) refl)
  | inr c ↦ rw (delete_at, c) (ground arith)
]

-- On an event that is not the only one of its date, this `DeleteEvent` does what that of Assignment2
-- does.
pub delete_event-agrees :
    (e : Event) (cal : Calendar) (i : ℕ)
    → all is_matched cal ≡ true
    → is_empty e.date ≡ false
    → search_by_date_title_time e cal ≡ some i
    → 2 ≤ events_of e.date cal
    → delete_event e cal ≡ Calendar.delete_event e cal
delete_event-agrees e cal i m d s n =
    let (first, found, next, f, a, g, same, returns) = delete_event-rest e cal i m d s n in
    let date = first-date e cal m f in
    delete_event-delete_at e cal s f a (ap is_empty date ∙ d)
    ∙ ap (λ o. some o) (delete_at-rest e cal first i found next date g)
    ∙ sym returns
