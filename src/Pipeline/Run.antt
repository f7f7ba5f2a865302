-- ===== src/Pipeline/Run.antt =====
-- location_updater.c as a whole: the calendar reads what the filter prints.
use advanced_systems_program.Prelude.{
  ℕ, suc, ◌-◌, ◌≡◌, refl, ap, ◌∙◌, arith, Bool, true, false, not, ◌&&◌, ◌||◌, Option, some, List,
  [], ◌∷◌, ◌++◌, map, leb, ◌==◌, if◌then◌else◌, length, drop, all, Bool-cases, inl, inr, &&-eq-true,
  ==_iff,
}
use mathlib.Core.List.{append_assoc}
use advanced_systems_program.CLib.{Bytes, c_str}
use advanced_systems_program.CLib.Strings.{c_str_idem, c_str-drop}
use advanced_systems_program.CLib.Lines.{newline, lines_from, fgets_lines, join}
use advanced_systems_program.CLib.Tokens.{tokens}
use advanced_systems_program.EmailFilter
use advanced_systems_program.EmailFilter.Checks.{not_newline}
use advanced_systems_program.EmailFilter.{is_well_formed}
use advanced_systems_program.EmailFilter.Machine.{five_fields, verdict, is_well_formed-five_fields}
use advanced_systems_program.EmailFilter.Run.{is_event, printed, select, main-select}
use advanced_systems_program.Calendar.Program
use advanced_systems_program.Calendar.Program.{is_filled}
use advanced_systems_program.Calendar.Event.{Event, event, parse_input}
use advanced_systems_program.Calendar.Event.Parse.{IsEvent}
use advanced_systems_program.Calendar.Handlers.{Outcome, unparsed, process_calendar}
use advanced_systems_program.Calendar.Store.{Store}
use advanced_systems_program.Prelude.Int.{pos}
use advanced_systems_program.Pipeline.Safe.{parse_input-well_formed}

-- Whether the two calls of `execlp` succeed. A child in which it fails prints to the error output and
-- ends.
pub record Programs : Type 0 where
  pub has_filter : Bool
  pub has_calendar : Bool

abbrev piped : Bool → Bytes → Bytes
piped has_filter mail = let (out, n) = EmailFilter.main mail in if has_filter then out else []

-- What the filter prints is what the calendar reads. `none` is a crash of the calendar.
unfoldable pub location_updater : Programs → (ℕ → Event) → Bytes → Option Outcome
location_updater programs stack mail =
    if programs.has_calendar
    then Program.main stack (piped programs.has_filter mail)
    else some (Program.empty_store, [])

-- A line that `fgets` reads whole: a newline at its end, none before, and no more bytes than `room`.
abbrev pub is_line : ℕ → Bytes → Bool
is_line room [] = false
is_line room (c ∷ []) = c == newline && leb 1 room
is_line room (c ∷ d ∷ cs) = not (c == newline) && leb 2 room && is_line (room - 1) (d ∷ cs)

lines_from-step :
    (size room : ℕ) (cur : Bytes) (c : ℕ) (cs : Bytes)
    → lines_from size room cur (c ∷ cs) ≡ (
        if c == newline || room == 1
        then (cur ++ c ∷ []) ∷ lines_from size size [] cs
        else lines_from size (room - 1) (cur ++ c ∷ []) cs)
unfolding lines_from
lines_from-step size room [] c cs = refl
lines_from-step size room (x ∷ cur) c cs = refl

lines_from-line :
    (size room : ℕ) (cur l rest : Bytes)
    → is_line room l ≡ true
    → lines_from size room cur (l ++ rest) ≡ (cur ++ l) ∷ lines_from size size [] rest
lines_from-line size room cur [] rest h = ground arith
lines_from-line size room cur (c ∷ []) rest h =
    let s = lines_from-step size room cur c rest in ground arith
lines_from-line size room cur (c ∷ d ∷ cs) rest h =
    let s = lines_from-step size room cur c (d ∷ cs ++ rest) in
    let i = lines_from-line size (room - 1) (cur ++ c ∷ []) (d ∷ cs) rest (ground arith) in
    let a = append_assoc cur (c ∷ []) (d ∷ cs) in ground arith

fgets_lines-join :
    (size : ℕ) (ls : List Bytes) → all (is_line size) ls ≡ true → fgets_lines size (join ls) ≡ ls
unfolding fgets_lines lines_from
fgets_lines-join size [] h = refl
fgets_lines-join size (l ∷ ls) h =
    let (a, b) = &&-eq-true (is_line size l) (all (is_line size) ls) h in
    lines_from-line size size [] l (join ls) a ∙ ap (λ x. l ∷ x) (fgets_lines-join size ls b)

-- An action of one byte, and a title without newline.
abbrev pub fits : List Bytes → Bool
fits (a ∷ t ∷ ts) = length a == 1 && all not_newline t
fits _ = false

-- A line of the mail of which the calendar takes what the filter prints of it.
abbrev pub is_plain : Bytes → Bool
is_plain l = is_line 1999 (printed l) && fits (tokens (printed l))

abbrev Parses : Event → Bytes → Type 0
Parses stack s = (e : Event) × (parse_input stack s ≡ event e)

tokens-Parses :
    (stack : Event) (s : Bytes) (ts : List Bytes)
    → IsEvent stack
    → tokens s ≡ ts
    → five_fields ts ≡ true
    → fits ts ≡ true
    → Parses stack s
unfolding five_fields
tokens-Parses stack s [] w split five fit = ground arith
tokens-Parses stack s (a ∷ []) w split five fit = ground arith
tokens-Parses stack s (a ∷ t ∷ []) w split five fit = ground arith
tokens-Parses stack s (a ∷ t ∷ d ∷ []) w split five fit = ground arith
tokens-Parses stack s (a ∷ t ∷ d ∷ h ∷ []) w split five fit = ground arith
tokens-Parses stack s (a ∷ t ∷ d ∷ h ∷ l ∷ ts) w split five fit =
    let (one, plain) = &&-eq-true (length a == 1) (all not_newline t) fit in
    let accepted : is_well_formed s ≡ some (pos 0) =
      is_well_formed-five_fields s
      ∙ ap (λ x. some (verdict (five_fields x))) split
      ∙ ap (λ b. some (verdict b)) five in
    let (e, parsed, fields) =
      parse_input-well_formed a t d h l ts stack w s split accepted ((==_iff (length a) 1).0 one)
        plain in
    (e, parsed)

-- The events of these lines of the mail; `stack` is as in `process_lines`.
pub AreParsed : (ℕ → Event) → ℕ → List Bytes → List Event → Type 0
AreParsed stack k [] [] = Unit
AreParsed stack k [] (e ∷ es) = ⊥
AreParsed stack k (l ∷ ls) [] = ⊥
AreParsed stack k (l ∷ ls) (e ∷ es) =
    (parse_input (stack k) (printed l) ≡ event e) × AreParsed stack (suc k) ls es

-- What one event does to the calendar.
abbrev perform : Event → Store → Outcome
perform e s =
    if is_filled e.action && is_filled e.title && is_filled e.time
    then process_calendar e s
    else (s, unparsed ∷ [])

event-five_fields : (l : Bytes) → is_event l ≡ true → five_fields (tokens (printed l)) ≡ true
unfolding five_fields tokens
event-five_fields l h = go (drop 9 (c_str l)) refl
  where
    go : (s : Bytes) → drop 9 (c_str l) ≡ s → five_fields (tokens (printed l)) ≡ true
    go [] e = absurd (ground (arith, ap (λ x. five_fields (tokens x)) e))
    go (c ∷ cs) e = ap (λ x. five_fields (tokens x)) (c_str-drop 9 l c cs e) ∙ h

-- What events do, one after another.
unfoldable pub perform_all : List Event → Store → Outcome
perform_all [] s = (s, [])
perform_all (e ∷ es) s =
    let (t, ls) = perform e s in let (u, ms) = perform_all es t in (u, ls ++ ms)

record Run (stack : ℕ → Event) (k : ℕ) (ls : List Bytes) (s : Store) : Type 0 where
  events : List Event
  parsed : AreParsed stack k ls events
  outcome : Program.process_lines stack k (map printed ls) s ≡ some (perform_all events s)

empty-Run : (stack : ℕ → Event) (k : ℕ) (s : Store) → Run stack k [] s
unfolding AreParsed Program.process_lines perform_all
empty-Run stack k s = record { events = []; parsed = tt; outcome = refl }

next-Run :
    (stack : ℕ → Event) (k : ℕ) (l : Bytes) (ls : List Bytes) (s : Store) (e : Event)
    → parse_input (stack k) (printed l) ≡ event e
    → Run stack (suc k) ls (perform e s).0
    → Run stack k (l ∷ ls) s
unfolding AreParsed Program.process_lines Program.process_line Program.take_event Program.and_then
    Program.then_print perform_all
next-Run stack k l ls s e p r = record {
  events = e ∷ r.events;
  parsed = (p, r.parsed);
  outcome = rw (c_str_idem (drop 9 l), p, r.outcome) refl;
}

process_lines-Run :
    (stack : ℕ → Event) (k : ℕ) (ls : List Bytes) (s : Store)
    → ((j : ℕ) → IsEvent (stack j))
    → all is_event ls ≡ true
    → all is_plain ls ≡ true
    → Run stack k ls s
process_lines-Run stack k [] s w ev pl = empty-Run stack k s
process_lines-Run stack k (l ∷ ls) s w ev pl =
    let (five, evs) = &&-eq-true (is_event l) (all is_event ls) ev in
    let (plain, pls) = &&-eq-true (is_plain l) (all is_plain ls) pl in
    let (line, fit) = &&-eq-true (is_line 1999 (printed l)) (fits (tokens (printed l))) plain in
    let (e, p) =
      tokens-Parses (stack k) (printed l) (tokens (printed l)) (w k) refl (event-five_fields l five)
        fit in
    next-Run stack k l ls s e p (process_lines-Run stack (suc k) ls (perform e s).0 w evs pls)

all-select : (p : Bytes → Bool) (ls : List Bytes) → all p (select p ls) ≡ true
unfolding select
all-select p [] = refl
all-select p (l ∷ ls) = elim (Bool-cases (p l)) [
  | inl e ↦ rw (e) (rw (e) (all-select p ls))
  | inr e ↦ rw (e) (all-select p ls)
]

plain-lines :
    (ls : List Bytes) → all is_plain ls ≡ true → all (is_line 1999) (map printed ls) ≡ true
plain-lines [] h = refl
plain-lines (l ∷ ls) h =
    let (a, b) = &&-eq-true (is_plain l) (all is_plain ls) h in
    let (c, d) = &&-eq-true (is_line 1999 (printed l)) (fits (tokens (printed l))) a in
    let i = plain-lines ls b in cc

-- If both programs are found, the uninitialised events have the sizes of their arrays, and in the mail
-- what the filter prints of each line with an event is at most 1999 bytes that end with their only
-- newline, with an action of one byte and a title without newline, then no program crashes: the
-- calendar does, one after another, what the events of these lines say, each as `parseInput` reads it
-- from what is printed of the line.
pub location_updater-perform_all :
    (programs : Programs) (stack : ℕ → Event) (mail : Bytes)
    → programs.has_filter ≡ true
    → programs.has_calendar ≡ true
    → ((j : ℕ) → IsEvent (stack j))
    → all is_plain (select is_event (fgets_lines 1999 mail)) ≡ true
    → (es : List Event) × AreParsed stack 0 (select is_event (fgets_lines 1999 mail)) es
      × (location_updater programs stack mail ≡ some (perform_all es Program.empty_store))
unfolding location_updater Program.main
location_updater-perform_all programs stack mail f c w plain =
    let lines = select is_event (fgets_lines 1999 mail) in
    let r = process_lines-Run stack 0 lines Program.empty_store w (all-select is_event _) plain in
    let read = fgets_lines-join 1999 (map printed lines) (plain-lines lines plain) in
    (r.events, r.parsed, rw (f, c, main-select mail, read) r.outcome)
