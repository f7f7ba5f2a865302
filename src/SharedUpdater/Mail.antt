-- ===== src/SharedUpdater/Mail.antt =====
-- The calendar of Assignment4/locationUpdater.cpp: `processCalendar` with its own `DeleteEvent`, on the
-- emails that the process of the calendar gets.
use advanced_systems_program.Prelude.{
  ℕ, ◌≡◌, ◌<◌, refl, sym, ap, ◌∙◌, Bool, true, none, some, List, [], ◌∷◌, ◌++◌, str_eq, codes, all,
  arith, if◌then◌else◌, Bool-cases, Option-cases, inl, inr, ◌>>=◌, &&-eq-true,
}
use advanced_systems_program.CLib.{Bytes}
use advanced_systems_program.Updater.Checks.{check_email, is_empty}
use advanced_systems_program.Updater.Event.{Event, parse_event, compare_events}
use advanced_systems_program.Updater.Calendar
use advanced_systems_program.Updater.Calendar.{
  Calendar, Outcome, Line, erase, event_at, search_by_date_title_time, search_earliest,
  create_event, edit_event,
}
use advanced_systems_program.Updater.Calendar.Order.{is_sorted, all-erase, erase-is_sorted}
use advanced_systems_program.Updater.Calendar.Keeps.{process-is_sorted}
use advanced_systems_program.Updater.Mail.{is_accepted, process-accepted, emails-accepted}
use advanced_systems_program.Updater.Threads.{emails}
use advanced_systems_program.Updater.Threads.Delivery.{processed-in_order}
use advanced_systems_program.SharedUpdater.Delete.{delete_at, delete_event}
use advanced_systems_program.SharedUpdater.Processes.{System, start, Reach}
use advanced_systems_program.SharedUpdater.Processes.Simulation.{processes-threads}
use advanced_systems_program.SharedUpdater.Texts.{no_zero}

-- `processCalendar`
unfoldable pub process : Bytes → Calendar → Outcome
unfolding create_event edit_event delete_event parse_event
process [] cal = some (cal, [])
process (c ∷ cs) cal =
    let e = parse_event (c ∷ cs) in
    if str_eq e.action (codes "C")
    then create_event e cal
    else if str_eq e.action (codes "X")
    then edit_event e cal
    else if str_eq e.action (codes "D")
    then delete_event e cal
    else some (cal, [])

-- The calls of `processCalendar` by `processCalendarThread`.
unfoldable pub process_all : List Bytes → Calendar → Outcome
unfolding process
process_all [] cal = some (cal, [])
process_all (email ∷ rest) cal = do
  first ← process email cal
  more ← process_all rest first.0
  some (more.0, first.1 ++ more.1)

-- `keep` holds of the calendar that a call leaves, if the call returns.
abbrev kept_after : (Calendar → Bool) → Outcome → Bool
kept_after keep none = true
kept_after keep (some (cal, lines)) = keep cal

delete_at-kept :
    (keep : Calendar → Bool) (e : Event) (cal : Calendar) (first : Event) (i : ℕ) (found : Event)
    → keep (erase cal i) ≡ true
    → keep (delete_at e cal first i found).0 ≡ true
unfolding delete_at
delete_at-kept keep e cal first i found h = elim (Bool-cases (compare_events first found)) [
  | inl c ↦ rw (c) h
  | inr c ↦ rw (c) h
]

delete_event-kept :
    (keep : Calendar → Bool) (e : Event) (cal : Calendar)
    → ((i : ℕ) → keep (erase cal i) ≡ true)
    → keep cal ≡ true
    → kept_after keep (delete_event e cal) ≡ true
unfolding delete_event
delete_event-kept keep e cal k h = elim (Option-cases (search_earliest e.date cal)) [
  | inl n ↦ rw (delete_event, n) refl
  | inr (first, f) ↦ elim (Bool-cases (is_empty first.date)) [
    | inl d ↦ rw (delete_event, f) (rw d h)
    | inr d ↦ elim (Option-cases (search_by_date_title_time e cal)) [
      | inl s ↦ rw (delete_event, f) (rw (d, s) refl)
      | inr (i, s) ↦ elim (Option-cases (event_at cal (some i))) [
        | inl a ↦ rw (delete_event, f) (rw (d, s) (rw a refl))
        | inr (found, a) ↦
            rw (delete_event, f) (rw (d, s) (rw a (delete_at-kept keep e cal first i found (k i))))
      ]
    ]
  ]
]

-- What the other `processCalendar` keeps, and the removal of an entry too, this one keeps.
process-kept :
    (keep : Calendar → Bool) (email : Bytes) (cal : Calendar)
    → ((i : ℕ) → keep (erase cal i) ≡ true)
    → keep cal ≡ true
    → kept_after keep (Calendar.process email cal) ≡ true
    → kept_after keep (process email cal) ≡ true
unfolding process Calendar.process
process-kept keep [] cal k h p = h
process-kept keep (c ∷ cs) cal k h p =
    let e = parse_event (c ∷ cs) in
    let delete = delete_event-kept keep e cal k h in
    elim (Bool-cases (str_eq e.action (codes "C"))) [
      | inl a ↦ rw a (rw a at p)
      | inr a ↦ elim (Bool-cases (str_eq e.action (codes "X"))) [
        | inl b ↦ rw (a, b) (rw (a, b) at p)
        | inr b ↦ elim (Bool-cases (str_eq e.action (codes "D"))) [
          | inl d ↦ rw (a, b, d) delete
          | inr d ↦ rw (a, b, d) h
        ]
      ]
    ]

record IsWellFormed (cal : Calendar) : Type 0 where
  sorted : is_sorted cal ≡ true
  accepted : all is_accepted cal ≡ true

-- What the calendar of Assignment2 keeps on an accepted email.
other-kept :
    (keep : Calendar → Bool) (email : Bytes) (cal : Calendar)
    → ((cal' : Calendar) (lines : List Line)
        → Calendar.process email cal ≡ some (cal', lines)
        → keep cal' ≡ true)
    → kept_after keep (Calendar.process email cal) ≡ true
other-kept keep email cal k = elim (Option-cases (Calendar.process email cal)) [
  | inl n ↦ rw n refl
  | inr ((cal', lines), q) ↦ rw q (k cal' lines q)
]

process-IsWellFormed :
    (email : Bytes) (cal : Calendar) {cal' : Calendar} {lines : List Line}
    → check_email email ≡ true
    → IsWellFormed cal
    → process email cal ≡ some (cal', lines)
    → IsWellFormed cal'
process-IsWellFormed email cal c w q = record {
  sorted =
      ap (kept_after is_sorted) (sym q)
      ∙ process-kept is_sorted email cal (λ i. erase-is_sorted cal i w.sorted) w.sorted
          (other-kept is_sorted email cal
            (λ cal' lines p. process-is_sorted email cal cal' lines w.sorted p));
  accepted =
      ap (kept_after (all is_accepted)) (sym q)
      ∙ process-kept (all is_accepted) email cal (λ i. all-erase is_accepted cal i w.accepted)
          w.accepted
          (other-kept (all is_accepted) email cal
            (λ cal' lines p. process-accepted email cal c w.accepted p));
}

process_all-IsWellFormed :
    (es : List Bytes) (cal : Calendar) {cal' : Calendar} {lines : List Line}
    → all check_email es ≡ true
    → IsWellFormed cal
    → process_all es cal ≡ some (cal', lines)
    → IsWellFormed cal'
unfolding process_all
process_all-IsWellFormed [] cal {cal'} {lines} c w q =
    let same : cal ≡ cal' = ground arith in
    record { sorted = rw (sym same) w.sorted; accepted = rw (sym same) w.accepted }
process_all-IsWellFormed (e ∷ es) cal {cal'} {lines} c w q =
    let (ce, ces) = &&-eq-true (check_email e) (all check_email es) c in
    elim (Option-cases (process e cal)) [
      | inl n ↦ absurd (ground arith)
      | inr ((one, ls), p) ↦ elim (Option-cases (process_all es one)) [
        | inl n ↦ absurd (ground arith)
        | inr ((two, ms), r) ↦
            let same : two ≡ cal' = ground arith in
            process_all-IsWellFormed es one {cal' = cal'} {lines = ms} ces
              (process-IsWellFormed e cal ce w p) (r ∙ ap (λ l. some (l, ms)) same)
      ]
    ]

all-front : (p : Bytes → Bool) (xs ys : List Bytes) → all p (xs ++ ys) ≡ true → all p xs ≡ true
all-front p [] ys h = refl
all-front p (x ∷ xs) ys h =
    let (a, b) = &&-eq-true (p x) (all p (xs ++ ys)) h in let i = all-front p xs ys b in cc

-- With a positive `BufferLength` and on a mail without 0 bytes, in every state of the two processes the
-- calendar of what was processed, if no call reads through `end()`, is sorted by key, and each of its
-- events has an action, a title, a date, a time and a location that pass their checks.
pub processed-calendar :
    (limit : ℕ) (input : List Bytes) {s : System} {cal : Calendar} {lines : List Line}
    → 0 < limit
    → all no_zero input ≡ true
    → Reach limit (start input) s
    → process_all s.processed [] ≡ some (cal, lines)
    → (is_sorted cal ≡ true) × (all is_accepted cal ≡ true)
unfolding is_sorted
processed-calendar limit input {s} h z r q =
    let (waiting, reach, ring) = processes-threads limit input h z r in
    let (in_order, few) = processed-in_order limit input h reach in
    let c =
      all-front check_email s.processed (waiting ++ emails s.input)
        (ap (all check_email) in_order ∙ emails-accepted input) in
    let w =
      process_all-IsWellFormed s.processed [] c (record { sorted = refl; accepted = refl }) q in
    (w.sorted, w.accepted)
