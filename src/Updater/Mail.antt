-- ===== src/Updater/Mail.antt =====
-- The emails of a mail, processed one after another on the calendar: the loop of
-- `processCalendarThread` over `ValidEmails`.
use advanced_systems_program.Prelude.{
  ℕ, zero, suc, ◌≡◌, ◌≢◌, refl, sym, ap, ◌∙◌, Bool, true, ◌&&◌, none, some, List, [], ◌∷◌, ◌++◌,
  ltb, length, all, arith, Bool-cases, Option-cases, &&-eq-true, str_eq, codes, inl, inr, ◌>>=◌,
}
use advanced_systems_program.CLib.{Bytes, c_str}
use advanced_systems_program.Updater.Checks.{
  check_email, check_action, check_title, check_date, check_time, check_location,
}
use advanced_systems_program.Updater.Event.{Event, parse_event}
use advanced_systems_program.Updater.Event.Fields.{parse_event-accepted}
use advanced_systems_program.Updater.Calendar.{
  Entry, Calendar, Outcome, Line, emplace, assign, find, create_event, process,
}
use advanced_systems_program.Updater.Calendar.Create.{find-emplace, search_earliest-some}
use advanced_systems_program.Updater.Calendar.Order.{is_sorted, all-emplace, all-erase}
use advanced_systems_program.Updater.Calendar.Keeps.{process-is_sorted, process-keeps}
use advanced_systems_program.Updater.Threads.{after_subject, found_email, emails}

unfoldable pub process_all : List Bytes → Calendar → Outcome
unfolding process
process_all [] cal = some (cal, [])
process_all (email ∷ rest) cal = do
  first ← process email cal
  more ← process_all rest first.0
  some (more.0, first.1 ++ more.1)

-- The event has five fields that pass their checks.
abbrev pub passes : Event → Bool
passes e =
    check_action e.action
    && check_title e.title
    && check_date e.date
    && check_time e.time
    && check_location e.location

abbrev pub is_accepted : Entry → Bool
is_accepted x = passes x.event

accepted-emplace :
    (e : Event) (cal : Calendar)
    → passes e ≡ true
    → all is_accepted cal ≡ true
    → all is_accepted (emplace e.date e cal) ≡ true
accepted-emplace e cal p h = all-emplace is_accepted e.date e cal ∙ rw (p, h) refl

accepted-assign :
    (e : Event) (cal : Calendar) (i : ℕ)
    → passes e ≡ true
    → all is_accepted cal ≡ true
    → all is_accepted (assign cal i e) ≡ true
unfolding assign
accepted-assign e [] i p h = refl
accepted-assign e (x ∷ xs) zero p h =
    rw (p, (&&-eq-true (is_accepted x) (all is_accepted xs) h).1) refl
accepted-assign e (x ∷ xs) (suc i) p h =
    let (hx, hs) = &&-eq-true (is_accepted x) (all is_accepted xs) h in
    rw (hx, accepted-assign e xs i p hs) refl

pub process-accepted :
    (email : Bytes) (cal : Calendar) {cal' : Calendar} {lines : List Line}
    → check_email email ≡ true
    → all is_accepted cal ≡ true
    → process email cal ≡ some (cal', lines)
    → all is_accepted cal' ≡ true
process-accepted email cal c h q =
    let e = parse_event email in
    let p = parse_event-accepted email c in
    process-keeps (all is_accepted) e (λ l k. accepted-emplace e l p k)
      (λ l i k. accepted-assign e l i p k) (λ l i k. all-erase is_accepted l i k) email cal refl h q

-- What the calendar of accepted emails is.
record IsWellFormed (cal : Calendar) : Type 0 where
  sorted : is_sorted cal ≡ true
  accepted : all is_accepted cal ≡ true

process_all-IsWellFormed :
    (es : List Bytes) (cal : Calendar) {cal' : Calendar} {lines : List Line}
    → all check_email es ≡ true
    → IsWellFormed cal
    → process_all es cal ≡ some (cal', lines)
    → IsWellFormed cal'
unfolding process_all
process_all-IsWellFormed [] cal {cal'} {lines} c w q =
    let same : cal ≡ cal' = ground arith in
    record { sorted = rw (sym same) w.sorted; accepted = rw (sym same) w.accepted }
process_all-IsWellFormed (e ∷ es) cal {cal'} {lines} c w q =
    let (ce, ces) = &&-eq-true (check_email e) (all check_email es) c in
    elim (Option-cases (process e cal)) [
      | inl n ↦ absurd (ground arith)
      | inr ((one, ls), p) ↦ elim (Option-cases (process_all es one)) [
        | inl n ↦ absurd (ground arith)
        | inr ((two, ms), r) ↦
            let same : two ≡ cal' = ground arith in
            process_all-IsWellFormed es one {cal' = cal'} {lines = ms} ces
              (record {
                sorted = process-is_sorted e cal one ls w.sorted p;
                accepted = process-accepted e cal ce w.accepted p;
              })
              (r ∙ ap (λ l. some (l, ms)) same)
      ]
    ]

found_email-accepted : (line : Bytes) → all check_email (found_email line) ≡ true
unfolding found_email
found_email-accepted line = elim (Bool-cases (ltb 9 (length (c_str line)))) [
  | inl h ↦ elim (Option-cases (after_subject line)) [
    | inl n ↦ rw (h, n) refl
    | inr (email, e) ↦ elim (Bool-cases (check_email email)) [
      | inl c ↦ rw (h, e) (rw c (rw c refl))
      | inr c ↦ rw (h, e) (rw c refl)
    ]
  ]
  | inr h ↦ rw h refl
]

all-append :
    (p : Bytes → Bool) (xs ys : List Bytes)
    → all p xs ≡ true
    → all p ys ≡ true
    → all p (xs ++ ys) ≡ true
all-append p [] ys h k = k
all-append p (x ∷ xs) ys h k = ground (arith, all-append p xs ys)

pub emails-accepted : (input : List Bytes) → all check_email (emails input) ≡ true
unfolding emails
emails-accepted [] = refl
emails-accepted (line ∷ lines) =
    all-append check_email (found_email line) (emails lines) (found_email-accepted line)
      (emails-accepted lines)

-- The calendar of any mail, if no call reads through `end()`, is sorted by key, and each of its events
-- has an action, a title, a date, a time and a location that pass their checks.
pub mail-calendar :
    (input : List Bytes) {cal : Calendar} {lines : List Line}
    → process_all (emails input) [] ≡ some (cal, lines)
    → (is_sorted cal ≡ true) × (all is_accepted cal ≡ true)
unfolding is_sorted
mail-calendar input q =
    let w =
      process_all-IsWellFormed (emails input) [] (emails-accepted input)
        (record { sorted = refl; accepted = refl }) q in
    (w.sorted, w.accepted)

create_event-none : (e : Event) (cal : Calendar) → create_event e cal ≢ none
unfolding create_event
create_event-none e cal h = elim (Option-cases (find e.date cal)) [
  | inl n ↦ ground arith
  | inr (x, f) ↦ elim (Option-cases (find e.date (emplace e.date e cal))) [
    | inl n ↦ find-emplace e cal n
    | inr (y, g) ↦
        let found = search_earliest-some e.date (emplace e.date e cal) g in ground (arith, f, found)
  ]
]

create_event-returns :
    (e : Event) (cal : Calendar) → (out : Calendar × List Line) × (create_event e cal ≡ some out)
create_event-returns e cal = elim (Option-cases (create_event e cal)) [
  | inl n ↦ absurd (create_event-none e cal n)
  | inr (out, r) ↦ (out, r)
]

abbrev pub is_create : Bytes → Bool
is_create email = str_eq (parse_event email).action (codes "C")

process-returns :
    (email : Bytes) (cal : Calendar)
    → is_create email ≡ true
    → (out : Calendar × List Line) × (process email cal ≡ some out)
unfolding process
process-returns [] cal c = ((cal, []), refl)
process-returns (b ∷ bs) cal c =
    let (out, r) = create_event-returns (parse_event (b ∷ bs)) cal in (out, rw (process, c) r)

process_all-returns :
    (es : List Bytes) (cal : Calendar)
    → all is_create es ≡ true
    → (out : Calendar × List Line) × (process_all es cal ≡ some out)
unfolding process_all
process_all-returns [] cal c = ((cal, []), refl)
process_all-returns (e ∷ es) cal c =
    let (ce, ces) = &&-eq-true (is_create e) (all is_create es) c in
    let (first, p) = process-returns e cal ce in
    let (more, q) = process_all-returns es first.0 ces in
    ((more.0, first.1 ++ more.1), rw p (rw q refl))

-- A mail whose emails all create events is processed to its end.
pub mail-creates :
    (input : List Bytes)
    → all is_create (emails input) ≡ true
    → (out : Calendar × List Line) × (process_all (emails input) [] ≡ some out)
mail-creates input c = process_all-returns (emails input) [] c
