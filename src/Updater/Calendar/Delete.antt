-- ===== src/Updater/Calendar/Delete.antt =====
-- When `DeleteEvent` returns, and what it does then.
use advanced_systems_program.Prelude.{
  ℕ, zero, suc, ◌+◌, ◌≤◌, ◌≡◌, refl, sym, ap, ◌∙◌, Bool, true, false, not, ◌&&◌, ◌||◌, none, some,
  [], ◌∷◌, if◌then◌else◌, all, str_eq, eq_of_str_eq, arith, Bool-cases, Option-cases, inl, inr,
}
use advanced_systems_program.CLib.{Bytes}
use advanced_systems_program.Updater.Checks.{is_empty}
use advanced_systems_program.Updater.Event.{Event, compare_events}
use advanced_systems_program.Updater.Calendar.{
  Entry, Calendar, find, event_at, erase, position, search_by_date_title_time, earliest_loop,
  compare_time, search_earliest, delete_at, delete_event,
}
use advanced_systems_program.Updater.Calendar.Earliest.{is_matched, find-all}

abbrev pub one_if : Bool → ℕ
one_if true = 1
one_if false = 0

-- The number of events of a date.
unfoldable pub events_of : Bytes → Calendar → ℕ
events_of date [] = 0
events_of date (x ∷ xs) = one_if (str_eq x.event.date date) + events_of date xs

abbrev pub has_action : Entry → Bool
has_action x = not (is_empty x.event.action)

-- `iter->second` is the event that the test was true of.
pub position-event_at :
    (test : Event → Bool) (cal : Calendar) (i : ℕ)
    → position test cal ≡ some i
    → (found : Event) × (event_at cal (some i) ≡ some found) × (test found ≡ true)
unfolding position event_at
position-event_at test [] i h = absurd (ground arith)
position-event_at test (x ∷ xs) zero h = elim (Bool-cases (test x.event)) [
  | inl t ↦ (x.event, refl, t)
  | inr t ↦ elim (Option-cases (position test xs)) [
    | inl n ↦ absurd (ground arith)
    | inr (j, p) ↦ absurd (ground arith)
  ]
]
position-event_at test (x ∷ xs) (suc i) h = elim (Bool-cases (test x.event)) [
  | inl t ↦ absurd (ground arith)
  | inr t ↦ elim (Option-cases (position test xs)) [
    | inl n ↦ absurd (ground arith)
    | inr (j, p) ↦ position-event_at test xs i (ground arith)
  ]
]

pub events_of-erase :
    (date : Bytes) (cal : Calendar) (i : ℕ) {found : Event}
    → event_at cal (some i) ≡ some found
    → str_eq found.date date ≡ true
    → events_of date cal ≡ suc (events_of date (erase cal i))
unfolding events_of event_at erase
events_of-erase date [] i h d = absurd (ground arith)
events_of-erase date (x ∷ xs) zero {found} h d =
    let same : x.event ≡ found = ground arith in
    rw (ap (λ f. str_eq f.date date) same, d) (omega arith)
events_of-erase date (x ∷ xs) (suc i) h d = ground (arith, events_of-erase date xs i h d)

pub none_of :
    (date : Bytes) (cal : Calendar)
    → events_of date cal ≡ 0
    → all (λ x. not (str_eq x.event.date date)) cal ≡ true
unfolding events_of
none_of date [] h = refl
none_of date (x ∷ xs) h = ground (arith, none_of date xs)

pub others-events_of :
    (date : Bytes) (cal : Calendar)
    → all (λ x. not (str_eq x.event.date date)) cal ≡ true
    → events_of date cal ≡ 0
unfolding events_of
others-events_of date [] h = refl
others-events_of date (x ∷ xs) h = ground (arith, others-events_of date xs)

-- Without events of the date nothing stands under its key.
pub find-none_of :
    (date : Bytes) (cal : Calendar)
    → events_of date cal ≡ 0
    → all is_matched cal ≡ true
    → find date cal ≡ none
find-none_of date cal h m = elim (Option-cases (find date cal)) [
  | inl n ↦ n
  | inr (x, f) ↦
      let (o, k) = find-all (λ y. not (str_eq y.event.date date)) date cal (none_of date cal h) f in
      let (mx, k') = find-all is_matched date cal m f in
      let on : str_eq x.event.date date ≡ true = rw (sym k) mx in absurd (ground arith)
]

-- What holds of the first choice and of all events of the date holds of the result.
earliest_loop-all :
    (p : Event → Bool) (date : Bytes) (cal : Calendar) (best : Event)
    → p best ≡ true
    → all (λ x. not (str_eq x.event.date date) || p x.event) cal ≡ true
    → p (earliest_loop date cal best) ≡ true
unfolding earliest_loop
earliest_loop-all p date [] best h a = h
earliest_loop-all p date (x ∷ xs) best h a =
    earliest_loop-all p date xs
      (if str_eq x.event.date date && not (compare_time best.time x.event.time)
        then x.event
        else best)
      (ground arith) (ground arith)

pub search_earliest-all :
    (p : Event → Bool) (date : Bytes) (cal : Calendar) {r : Event}
    → all is_matched cal ≡ true
    → all (λ x. not (str_eq x.event.date date) || p x.event) cal ≡ true
    → search_earliest date cal ≡ some r
    → p r ≡ true
unfolding search_earliest
search_earliest-all p date cal {r} m a e = elim (Option-cases (find date cal)) [
  | inl n ↦ absurd (ground arith)
  | inr (x, f) ↦
      let (mx, k) = find-all is_matched date cal m f in
      let (px, k') = find-all (λ y. not (str_eq y.event.date date) || p y.event) date cal a f in
      let on : str_eq x.event.date date ≡ true = rw (sym k) mx in
      let same : earliest_loop date cal x.event ≡ r = ground arith in
      rw (sym same) (earliest_loop-all p date cal x.event (ground arith) a)
]

pub on_date :
    (date : Bytes) (cal : Calendar)
    → all (λ x. not (str_eq x.event.date date) || str_eq x.event.date date) cal ≡ true
on_date date [] = refl
on_date date (x ∷ xs) = ground (arith, on_date date xs)

pub only_equal :
    (date : Bytes) (cal : Calendar) (i : ℕ) {found : Event}
    → event_at cal (some i) ≡ some found
    → str_eq found.date date ≡ true
    → compare_events found found ≡ true
    → events_of date cal ≤ 1
    → all (λ x. not (str_eq x.event.date date) || compare_events x.event found) cal ≡ true
unfolding event_at events_of
only_equal date [] i h d c n = refl
only_equal date (x ∷ xs) zero {found} h d c n =
    let same : x.event ≡ found = ground arith in
    let ofs = ap (λ f. one_if (str_eq f.date date)) same in
    rw same (ground (arith, quiet xs (none_of date xs (ground arith))))
  where
    quiet :
        (ys : Calendar)
        → all (λ x. not (str_eq x.event.date date)) ys ≡ true
        → all (λ x. not (str_eq x.event.date date) || compare_events x.event found) ys ≡ true
    quiet [] h = refl
    quiet (y ∷ ys) h = ground (arith, quiet ys)
only_equal date (x ∷ xs) (suc i) {found} h d c n =
    let one : events_of date xs ≡ suc (events_of date (erase xs i)) =
      events_of-erase date xs i h d in
    elim (Bool-cases (str_eq x.event.date date)) [
      | inl e ↦ let o : one_if (str_eq x.event.date date) ≡ 1 = ap one_if e in absurd (omega arith)
      | inr e ↦
          let o : one_if (str_eq x.event.date date) ≡ 0 = ap one_if e in
          rw e (only_equal date xs i h d c (omega arith))
    ]

-- What the three fields that are compared give.
pub found-date :
    (e f : Event)
    → (str_eq f.time e.time && (str_eq f.title e.title && str_eq f.date e.date)) ≡ true
    → str_eq f.date e.date ≡ true
found-date e f h = ground arith

pub has_action-event_at :
    (cal : Calendar) (i : ℕ) {found : Event}
    → all has_action cal ≡ true
    → event_at cal (some i) ≡ some found
    → is_empty found.action ≡ false
unfolding event_at
has_action-event_at [] i h e = absurd (ground arith)
has_action-event_at (x ∷ xs) zero {found} h e =
    let same : x.event ≡ found = ground arith in rw (sym same) (ground arith)
has_action-event_at (x ∷ xs) (suc i) h e = has_action-event_at xs i (ground arith) e

-- With no events of the date there is no entry, and the call reads through `end()`.
pub search_earliest-none_of :
    (date : Bytes) (cal : Calendar)
    → events_of date cal ≡ 0
    → all is_matched cal ≡ true
    → search_earliest date cal ≡ none
unfolding search_earliest
search_earliest-none_of date cal h m = ground (arith, find-none_of date cal h m)

pub delete_at-last :
    (e : Event) (cal : Calendar) (first : Event) (i : ℕ) (found : Event)
    → compare_events first found ≡ true
    → search_earliest e.date (erase cal i) ≡ none
    → delete_at e cal first i found ≡ none
unfolding delete_at
delete_at-last e cal first i found c n = ground arith

pub delete_event-steps :
    (e : Event) (cal : Calendar) {i : ℕ} {first found : Event}
    → search_by_date_title_time e cal ≡ some i
    → search_earliest e.date cal ≡ some first
    → event_at cal (some i) ≡ some found
    → is_empty first.date ≡ false
    → delete_event e cal ≡ delete_at e cal first i found
unfolding delete_event
delete_event-steps e cal {i} {first} {found} s f a d = rw (s, f) (rw (d, a) refl)

pub delete_event-unfound :
    (e : Event) (cal : Calendar)
    → search_by_date_title_time e cal ≡ none
    → all is_matched cal ≡ true
    → is_empty e.date ≡ false
    → delete_event e cal ≡ none
unfolding delete_event
delete_event-unfound e cal s m d = elim (Option-cases (search_earliest e.date cal)) [
  | inl n ↦ rw (s, n) refl
  | inr (first, f) ↦
      let same =
        search_earliest-all (λ x. str_eq x.date e.date) e.date cal m (on_date e.date cal) f in
      let full : is_empty first.date ≡ false =
        ap is_empty (eq_of_str_eq first.date e.date same) ∙ d in
      rw (s, f) (rw full refl)
]
