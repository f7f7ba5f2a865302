-- ===== src/Updater/Calendar/Create.antt =====
-- `CreateEvent` prints the new event if it is the earliest of its date.
use advanced_systems_program.Prelude.{
  ◌≡◌, ◌≢◌, refl, sym, ap, ◌∙◌, true, false, not, ◌&&◌, none, some, [], ◌∷◌, all, str_eq,
  str_eq_self, eq_of_str_eq, arith, Bool-cases, Option-cases, &&-eq-true, inl, inr,
}
use advanced_systems_program.CLib.{Bytes}
use advanced_systems_program.Updater.Checks.{is_empty, check_time}
use advanced_systems_program.Updater.Event.{Event, compare_events}
use advanced_systems_program.Updater.Calendar.{
  Entry, Calendar, str_ltb, emplace, find, compare_time, earliest_loop, search_earliest, show_if,
  create_event,
}
use advanced_systems_program.Updater.Calendar.Order.{
  str_ltb_irrefl, is_sorted, not_below, above, all-emplace,
}
use advanced_systems_program.Updater.Calendar.Earliest.{
  compare_time_irrefl, is_timed, is_matched, not_earlier, find-all, search_earliest-first,
}

-- Entries of other dates leave the choice as it is.
earliest_loop-others :
    (date : Bytes) (cal : Calendar) (best : Event)
    → all (λ x. not (str_eq x.event.date date)) cal ≡ true
    → earliest_loop date cal best ≡ best
unfolding earliest_loop
earliest_loop-others date [] best h = refl
earliest_loop-others date (x ∷ xs) best h = ground (arith, earliest_loop-others date xs best)

str_eq_above :
    (date key d : Bytes) → str_ltb date key ≡ true → str_eq d key ≡ true → str_eq d date ≡ false
str_eq_above date key d lt e = elim (Bool-cases (str_eq d date)) [
  | inr h ↦ h
  | inl h ↦
      let same : date ≡ key = sym (eq_of_str_eq d date h) ∙ eq_of_str_eq d key e in
      let ir = str_ltb_irrefl date in absurd (ground (arith, ap (str_ltb date) same))
]

above-others :
    (date : Bytes) (cal : Calendar)
    → all (λ y. str_ltb date y.key) cal ≡ true
    → all is_matched cal ≡ true
    → all (λ x. not (str_eq x.event.date date)) cal ≡ true
above-others date [] h m = refl
above-others date (x ∷ xs) h m =
    ground (arith, str_eq_above date x.key x.event.date, above-others date xs)

pub find-others :
    (date : Bytes) (cal : Calendar)
    → find date cal ≡ none
    → all is_matched cal ≡ true
    → all (λ x. not (str_eq x.event.date date)) cal ≡ true
unfolding find
find-others date [] h m = refl
find-others date (x ∷ xs) h m = elim (Bool-cases (str_eq x.event.date date)) [
  | inl d ↦
      let same : x.key ≡ date =
        sym (eq_of_str_eq x.event.date x.key (ground arith)) ∙ eq_of_str_eq x.event.date date d in
      let self = str_eq_self date in absurd (ground (arith, ap (λ k. str_eq k date) same))
  | inr d ↦ elim (Bool-cases (str_eq x.key date)) [
    | inl k ↦ absurd (ground arith)
    | inr k ↦ ground (arith, find-others date xs)
  ]
]

others-not_earlier :
    (date time : Bytes) (cal : Calendar)
    → all (λ x. not (str_eq x.event.date date)) cal ≡ true
    → all (not_earlier date time) cal ≡ true
others-not_earlier date time [] h = refl
others-not_earlier date time (x ∷ xs) h = ground (arith, others-not_earlier date time xs)

loop-new :
    (e : Event) (cal : Calendar) (best : Event)
    → compare_time best.time e.time ≡ false
    → all (λ x. not (str_eq x.event.date e.date)) cal ≡ true
    → earliest_loop e.date (record { key = e.date; event = e } ∷ cal) best ≡ e
unfolding earliest_loop
loop-new e cal best h o = rw (h, str_eq_self e.date) (earliest_loop-others e.date cal e o)

pub search_earliest-some :
    (date : Bytes) (cal : Calendar) {x : Entry}
    → find date cal ≡ some x
    → search_earliest date cal ≡ some (earliest_loop date cal x.event)
unfolding search_earliest
search_earliest-some date cal f = ground (arith, f)

-- The new event stands behind all others of its date, so it replaces every choice but an earlier one.
loop-emplace :
    (e : Event) (cal : Calendar) (best : Event)
    → is_sorted cal ≡ true
    → all is_matched cal ≡ true
    → all (not_earlier e.date e.time) cal ≡ true
    → compare_time best.time e.time ≡ false
    → earliest_loop e.date (emplace e.date e cal) best ≡ e
unfolding earliest_loop emplace is_sorted
loop-emplace e [] best s m n h = ground (arith, str_eq_self e.date)
loop-emplace e (x ∷ xs) best s m n h = elim (Bool-cases (str_ltb e.date x.key)) [
  | inl lt ↦
      let (a, ss) = &&-eq-true (all (not_below x.key) xs) (is_sorted xs) s in
      let up = above e.date x.key xs lt a in
      let o = above-others e.date (x ∷ xs) (rw (lt, up) refl) m in
      rw lt (loop-new e (x ∷ xs) best h o)
  | inr lt ↦
      let ss = (&&-eq-true (all (not_below x.key) xs) (is_sorted xs) s).1 in
      let ms = (&&-eq-true (is_matched x) (all is_matched xs) m).1 in
      let (nx, ns) =
        &&-eq-true (not_earlier e.date e.time x) (all (not_earlier e.date e.time) xs) n in
      rw lt (loop-emplace e xs _ ss ms ns (ground arith))
]

pub compare_events_refl : (e : Event) → is_empty e.action ≡ false → compare_events e e ≡ true
unfolding compare_events
compare_events_refl e h = ground (
  arith,
  str_eq_self e.action,
  str_eq_self e.title,
  str_eq_self e.date,
  str_eq_self e.time,
  str_eq_self e.location,
)

compare_events-time : (e f : Event) → compare_events e f ≡ true → e.time ≡ f.time
unfolding compare_events
compare_events-time e f h = eq_of_str_eq e.time f.time (ground arith)

pub find-emplace : (e : Event) (cal : Calendar) → find e.date (emplace e.date e cal) ≢ none
unfolding find emplace
find-emplace e [] h = ground (arith, str_eq_self e.date)
find-emplace e (x ∷ xs) h = elim (Bool-cases (str_ltb e.date x.key)) [
  | inl lt ↦ ground (arith, str_eq_self e.date)
  | inr lt ↦ ground (arith, find-emplace e xs)
]

-- What is chosen is the new event if no event of the date is earlier, and earlier than it otherwise.
search_earliest-emplace :
    (e : Event) (cal : Calendar)
    → is_sorted cal ≡ true
    → all is_matched cal ≡ true
    → all is_timed cal ≡ true
    → check_time e.time ≡ true
    → is_empty e.date ≡ false
    → is_empty e.action ≡ false
    → (r : Event) × (search_earliest e.date (emplace e.date e cal) ≡ some r)
      × ((not (is_empty r.date) && compare_events r e) ≡ all (not_earlier e.date e.time) cal)
search_earliest-emplace e cal s m t te ed ea =
    elim (Option-cases (find e.date (emplace e.date e cal))) [
      | inl n ↦ absurd (find-emplace e cal n)
      | inr (x, f) ↦
          let m' = all-emplace is_matched e.date e cal ∙ rw (m, str_eq_self e.date) refl in
          let t' = all-emplace is_timed e.date e cal ∙ rw (t, te) refl in
          let r = earliest_loop e.date (emplace e.date e cal) x.event in
          let found : search_earliest e.date (emplace e.date e cal) ≡ some r =
            search_earliest-some e.date (emplace e.date e cal) f in
          let (d, first) = search_earliest-first e.date (emplace e.date e cal) m' t' found in
          (
            r,
            found,
            elim (Bool-cases (all (not_earlier e.date e.time) cal)) [
              | inl n ↦
                  let n' =
                    all-emplace (not_earlier e.date e.time) e.date e cal
                    ∙ rw n (ground (arith, compare_time_irrefl e.time)) in
                  let (nx, k) =
                    find-all (not_earlier e.date e.time) e.date (emplace e.date e cal) n' f in
                  let (mx, k') = find-all is_matched e.date (emplace e.date e cal) m' f in
                  let dx : str_eq x.event.date e.date ≡ true = rw (sym k) mx in
                  let same = loop-emplace e cal x.event s m n (ground arith) in
                  rw (n, same, ed, compare_events_refl e ea) refl
              | inr n ↦ elim (Bool-cases (compare_events r e)) [
                | inr c ↦ rw (n, c) (ground arith)
                | inl c ↦
                    let all_first = all-emplace (not_earlier e.date r.time) e.date e cal in
                    let on_time =
                      ap (λ u. all (not_earlier e.date u) cal) (compare_events-time r e c) in
                    absurd (ground arith)
              ]
            ],
          )
    ]

-- On a calendar sorted by key, with each event under its date and with times that `CheckTime`
-- accepts, `CreateEvent` adds the event, and prints it exactly if no event of its date is earlier.
pub create_event-shown :
    (e : Event) (cal : Calendar)
    → is_sorted cal ≡ true
    → all is_matched cal ≡ true
    → all is_timed cal ≡ true
    → check_time e.time ≡ true
    → is_empty e.date ≡ false
    → is_empty e.action ≡ false
    → create_event e cal
      ≡ some (emplace e.date e cal, show_if (all (not_earlier e.date e.time) cal) e)
unfolding create_event
create_event-shown e cal s m t te ed ea = elim (Option-cases (find e.date cal)) [
  | inl n ↦
      let quiet = others-not_earlier e.date e.time cal (find-others e.date cal n m) in
      ground (arith, n)
  | inr (x, f) ↦
      let (r, found, c) = search_earliest-emplace e cal s m t te ed ea in ground (arith, f, found)
]
