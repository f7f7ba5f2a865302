-- ===== src/Updater/Calendar/Keeps.antt =====
-- What each call leaves true of the calendar.
use advanced_systems_program.Prelude.{
  ℕ, ◌≡◌, refl, sym, ap, ◌∙◌, Bool, true, Option, none, some, List, [], ◌∷◌, str_eq, codes,
  if◌then◌else◌, Bool-cases, Option-cases, inl, inr, ◌>>=◌,
}
use advanced_systems_program.CLib.{Bytes}
use advanced_systems_program.Updater.Checks.{is_empty}
use advanced_systems_program.Updater.Event.{Event, parse_event, compare_events}
use advanced_systems_program.Updater.Calendar.{
  Calendar, Outcome, Line, find, emplace, assign, erase, event_at, search_by_title,
  search_by_date_title_time, search_earliest, create_event, edit_event, delete_at, delete_event,
  process,
}
use advanced_systems_program.Updater.Calendar.Order.{
  is_sorted, emplace-is_sorted, erase-is_sorted, assign-is_sorted,
}

-- The operation that the action of an event asks for.
abbrev by_action : Event → Calendar → Outcome
by_action e cal =
    if str_eq e.action (codes "C")
    then create_event e cal
    else if str_eq e.action (codes "X")
    then edit_event e cal
    else if str_eq e.action (codes "D")
    then delete_event e cal
    else some (cal, [])

-- A property of the calendar that the three changes keep.
module _ (keep : Calendar → Bool) (e : Event)
    (keep-emplace : (cal : Calendar) → keep cal ≡ true → keep (emplace e.date e cal) ≡ true)
    (keep-assign : (cal : Calendar) (i : ℕ) → keep cal ≡ true → keep (assign cal i e) ≡ true)
    (keep-erase : (cal : Calendar) (i : ℕ) → keep cal ≡ true → keep (erase cal i) ≡ true) where
  -- It holds of the calendar that a call leaves, if the call returns.
  abbrev pub kept_after : Outcome → Bool
  kept_after none = true
  kept_after (some (cal, lines)) = keep cal

  kept_bind :
      (o : Option Event) (cal : Calendar) (print : Event → List Line)
      → keep cal ≡ true
      → kept_after (o >>= λ first. some (cal, print first)) ≡ true
  kept_bind none cal print h = refl
  kept_bind (some first) cal print h = h

  create_event-kept : (cal : Calendar) → keep cal ≡ true → kept_after (create_event e cal) ≡ true
  unfolding create_event
  create_event-kept cal h = elim (Option-cases (find e.date cal)) [
    | inl n ↦ rw (create_event, n) (keep-emplace cal h)
    | inr (x, f) ↦
        rw (create_event, f)
          (kept_bind (search_earliest e.date (emplace e.date e cal)) (emplace e.date e cal) _
            (keep-emplace cal h))
  ]

  edit_event-kept : (cal : Calendar) → keep cal ≡ true → kept_after (edit_event e cal) ≡ true
  unfolding edit_event
  edit_event-kept cal h = elim (Option-cases (search_by_title e.title cal)) [
    | inl n ↦ rw (edit_event, n) h
    | inr (i, f) ↦
        rw (edit_event, f)
          (kept_bind (search_earliest e.date (assign cal i e)) (assign cal i e) _
            (keep-assign cal i h))
  ]

  delete_at-kept :
      (cal : Calendar) (first : Event) (i : ℕ) (found : Event)
      → keep cal ≡ true
      → kept_after (delete_at e cal first i found) ≡ true
  unfolding delete_at
  delete_at-kept cal first i found h = elim (Bool-cases (compare_events first found)) [
    | inl c ↦
        rw (delete_at, c)
          (kept_bind (search_earliest e.date (erase cal i)) (erase cal i) _ (keep-erase cal i h))
    | inr c ↦ rw (delete_at, c) (keep-erase cal i h)
  ]

  delete_event-kept : (cal : Calendar) → keep cal ≡ true → kept_after (delete_event e cal) ≡ true
  unfolding delete_event
  delete_event-kept cal h = elim (Option-cases (search_earliest e.date cal)) [
    | inl n ↦ rw (delete_event, n) refl
    | inr (first, f) ↦ elim (Bool-cases (is_empty first.date)) [
      | inl d ↦ rw (delete_event, f) (rw d h)
      | inr d ↦ elim (Option-cases (search_by_date_title_time e cal)) [
        | inl s ↦ rw (delete_event, f) (rw (d, s) refl)
        | inr (i, s) ↦ elim (Option-cases (event_at cal (some i))) [
          | inl a ↦ rw (delete_event, f) (rw (d, s) (rw a refl))
          | inr (found, a) ↦
              rw (delete_event, f) (rw (d, s) (rw a (delete_at-kept cal first i found h)))
        ]
      ]
    ]
  ]

  by_action-kept : (cal : Calendar) → keep cal ≡ true → kept_after (by_action e cal) ≡ true
  by_action-kept cal h =
      let create = create_event-kept cal h in
      let edit = edit_event-kept cal h in
      let delete = delete_event-kept cal h in
      elim (Bool-cases (str_eq e.action (codes "C"))) [
        | inl a ↦ rw a create
        | inr a ↦ elim (Bool-cases (str_eq e.action (codes "X"))) [
          | inl b ↦ rw (a, b) edit
          | inr b ↦ elim (Bool-cases (str_eq e.action (codes "D"))) [
            | inl d ↦ rw (a, b, d) delete
            | inr d ↦ rw (a, b, d) h
          ]
        ]
      ]

  process-kept :
      (email : Bytes) (cal : Calendar)
      → parse_event email ≡ e
      → keep cal ≡ true
      → kept_after (process email cal) ≡ true
  unfolding process
  process-kept [] cal p h = h
  process-kept (c ∷ cs) cal p h = ap (λ f. kept_after (by_action f cal)) p ∙ by_action-kept cal h

  pub process-keeps :
      (email : Bytes) (cal : Calendar) {cal' : Calendar} {lines : List Line}
      → parse_event email ≡ e
      → keep cal ≡ true
      → process email cal ≡ some (cal', lines)
      → keep cal' ≡ true
  process-keeps email cal p h q = ap kept_after (sym q) ∙ process-kept email cal p h

-- `processCalendar` keeps the multimap in the order of its keys, whatever the line and the calendar.
pub process-is_sorted :
    (email : Bytes) (cal cal' : Calendar) (lines : List Line)
    → is_sorted cal ≡ true
    → process email cal ≡ some (cal', lines)
    → is_sorted cal' ≡ true
process-is_sorted email cal cal' lines h q =
    let e = parse_event email in
    process-keeps is_sorted e (emplace-is_sorted e.date e) (λ c i k. assign-is_sorted c i e ∙ k)
      erase-is_sorted email cal refl h q
