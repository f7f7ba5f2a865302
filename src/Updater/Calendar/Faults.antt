-- ===== src/Updater/Calendar/Faults.antt =====
-- The calls that read or erase through `end()`, and those that do not.
use advanced_systems_program.Prelude.{
  ℕ, zero, suc, ◌≤◌, ◌≡◌, refl, ap, ◌∙◌, true, false, ◌&&◌, none, some, [], ◌∷◌, all, str_eq,
  eq_of_str_eq, arith, Bool-cases, Option-cases, inl, inr,
}
use advanced_systems_program.CLib.{Bytes}
use advanced_systems_program.Updater.Checks.{is_empty}
use advanced_systems_program.Updater.Event.{Event, compare_events}
use advanced_systems_program.Updater.Calendar.{
  Calendar, find, assign, event_at, erase, search_by_title, search_by_date_title_time,
  search_earliest, delete_at, delete_event, edit_event, show_if,
}
use advanced_systems_program.Updater.Calendar.Order.{all-erase}
use advanced_systems_program.Updater.Calendar.Earliest.{is_matched}
use advanced_systems_program.Updater.Calendar.Create.{find-others, compare_events_refl}
use advanced_systems_program.Updater.Calendar.Delete.{
  events_of, has_action, position-event_at, events_of-erase, others-events_of, search_earliest-all,
  on_date, only_equal, found-date, has_action-event_at, search_earliest-none_of, delete_at-last,
  delete_event-steps, delete_event-unfound,
}

pub search_earliest-none :
    (date : Bytes) (cal : Calendar)
    → search_earliest date cal ≡ none
    → all is_matched cal ≡ true
    → events_of date cal ≡ 0
unfolding search_earliest
search_earliest-none date cal n m = elim (Option-cases (find date cal)) [
  | inl f ↦ others-events_of date cal (find-others date cal f m)
  | inr (x, f) ↦ absurd (ground arith)
]

-- The call has the event to erase, and the earliest of the date.
pub record Found (e : Event) (cal : Calendar) (i : ℕ) : Type 0 where
  pub first : Event
  pub found : Event
  pub steps : delete_event e cal ≡ delete_at e cal first i found
  pub first_of : search_earliest e.date cal ≡ some first
  pub at_i : event_at cal (some i) ≡ some found
  pub on : str_eq found.date e.date ≡ true

pub searched :
    (e : Event) (cal : Calendar) (i : ℕ)
    → search_by_date_title_time e cal ≡ some i
    → (found : Event) × (event_at cal (some i) ≡ some found) × (str_eq found.date e.date ≡ true)
unfolding search_by_date_title_time
searched e cal i s =
    let (found, a, t) =
      position-event_at
        (λ f. str_eq f.time e.time && (str_eq f.title e.title && str_eq f.date e.date)) cal i s in
    (found, a, found-date e found t)

pub located :
    (e : Event) (cal : Calendar) (i : ℕ)
    → all is_matched cal ≡ true
    → is_empty e.date ≡ false
    → search_by_date_title_time e cal ≡ some i
    → Found e cal i
located e cal i m d s =
    let (found, a, on) = searched e cal i s in
    let some_of = events_of-erase e.date cal i a on in
    elim (Option-cases (search_earliest e.date cal)) [
      | inl n ↦ absurd (ground (arith, search_earliest-none e.date cal n m))
      | inr (first, f) ↦
          let same =
            search_earliest-all (λ x. str_eq x.date e.date) e.date cal m (on_date e.date cal) f in
          let full : is_empty first.date ≡ false =
            ap is_empty (eq_of_str_eq first.date e.date same) ∙ d in
          record {
            first = first;
            found = found;
            steps = delete_event-steps e cal s f a full;
            first_of = f;
            at_i = a;
            on = on;
          }
    ]

-- If every entry stands under the date of its event, every event has an action, and the date is not
-- empty, then `DeleteEvent` for a date of which the calendar has at most one event reads through
-- `end()`.
pub delete_event-last :
    (e : Event) (cal : Calendar)
    → all is_matched cal ≡ true
    → all has_action cal ≡ true
    → is_empty e.date ≡ false
    → events_of e.date cal ≤ 1
    → delete_event e cal ≡ none
delete_event-last e cal m a d n = elim (Option-cases (search_by_date_title_time e cal)) [
  | inl s ↦ delete_event-unfound e cal s m d
  | inr (i, s) ↦
      let f = located e cal i m d s in
      let c = compare_events_refl f.found (has_action-event_at cal i a f.at_i) in
      let one = events_of-erase e.date cal i f.at_i f.on in
      let all_equal = only_equal e.date cal i f.at_i f.on c n in
      let equal =
        search_earliest-all (λ x. compare_events x f.found) e.date cal m all_equal f.first_of in
      let gone =
        search_earliest-none_of e.date (erase cal i) (omega arith) (all-erase is_matched cal i m) in
      f.steps ∙ delete_at-last e cal f.first i f.found equal gone
]

delete_at-rest :
    (e : Event) (cal : Calendar) (first : Event) (i : ℕ) (found next : Event)
    → search_earliest e.date (erase cal i) ≡ some next
    → is_empty next.date ≡ false
    → delete_at e cal first i found ≡ some (erase cal i, show_if (compare_events first found) next)
unfolding delete_at search_earliest
delete_at-rest e cal first i found next n d = elim (Bool-cases (compare_events first found)) [
  | inl c ↦ rw c (ground arith)
  | inr c ↦ elim (Option-cases (find e.date (erase cal i))) [
    | inl f ↦ absurd (ground arith)
    | inr (x, f) ↦ rw (c, f) refl
  ]
]

-- If every entry stands under the date of its event, and the date is not empty, then `DeleteEvent` for
-- an event that the calendar has with this date, title and time, and that is not the only one of the
-- date, erases it. It prints the event that `searchEarliestEventByDate` then finds exactly if the one
-- that this found before compares equal to the one erased.
pub delete_event-rest :
    (e : Event) (cal : Calendar) (i : ℕ)
    → all is_matched cal ≡ true
    → is_empty e.date ≡ false
    → search_by_date_title_time e cal ≡ some i
    → 2 ≤ events_of e.date cal
    → (first found next : Event) × (search_earliest e.date cal ≡ some first)
      × (event_at cal (some i) ≡ some found)
      × (search_earliest e.date (erase cal i) ≡ some next)
      × (next.date ≡ e.date)
      × (delete_event e cal ≡ some (erase cal i, show_if (compare_events first found) next))
delete_event-rest e cal i m d s n =
    let f = located e cal i m d s in
    let one = events_of-erase e.date cal i f.at_i f.on in
    let m' = all-erase is_matched cal i m in
    elim (Option-cases (search_earliest e.date (erase cal i))) [
      | inl g ↦ let gone = search_earliest-none e.date (erase cal i) g m' in absurd (omega arith)
      | inr (next, g) ↦
          let same = eq_of_str_eq next.date e.date (
            search_earliest-all (λ x. str_eq x.date e.date) e.date (erase cal i) m'
              (on_date e.date (erase cal i)) g) in
          (
            f.first,
            f.found,
            next,
            f.first_of,
            f.at_i,
            g,
            same,
            f.steps ∙ delete_at-rest e cal f.first i f.found next g (ap is_empty same ∙ d),
          )
    ]

find-assign :
    (date : Bytes) (cal : Calendar) (i : ℕ) (e : Event)
    → find date cal ≡ none
    → find date (assign cal i e) ≡ none
unfolding find assign
find-assign date [] i e h = refl
find-assign date (x ∷ xs) zero e h = elim (Bool-cases (str_eq x.key date)) [
  | inl k ↦ absurd (ground arith)
  | inr k ↦ rw k (ground arith)
]
find-assign date (x ∷ xs) (suc i) e h = elim (Bool-cases (str_eq x.key date)) [
  | inl k ↦ absurd (ground arith)
  | inr k ↦ rw k (find-assign date xs i e (ground arith))
]

-- `EditEvent` gives an event a date that no entry stands under: the entry keeps its key, and the
-- search for the new date reads through `end()`.
pub edit_event-new_date :
    (e : Event) (cal : Calendar) {i : ℕ}
    → search_by_title e.title cal ≡ some i
    → find e.date cal ≡ none
    → edit_event e cal ≡ none
unfolding edit_event search_earliest
edit_event-new_date e cal {i} s f =
    rw (edit_event, s) (rw (search_earliest, find-assign e.date cal i e f) refl)
