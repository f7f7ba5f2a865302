-- ===== src/Calendar/Program/Runs.antt =====
-- The run of the calendar over its whole input.
use advanced_systems_program.Prelude.{
  ℕ, suc, refl, ◌&&◌, Option, none, some, List, [], ◌∷◌, arith, Bool-cases, inl, inr,
}
use advanced_systems_program.CLib.{Bytes, c_str}
use advanced_systems_program.CLib.Lines.{fgets_lines}
use advanced_systems_program.Calendar.Event.{Event, Parsed, event, crash, unfinished, parse_input}
use advanced_systems_program.Calendar.Store.{Store}
use advanced_systems_program.Calendar.Store.WellFormed.{IsWellFormed}
use advanced_systems_program.Calendar.Handlers.{Outcome, Line}
use advanced_systems_program.Calendar.Handlers.Keeps.{process_calendar-IsWellFormed}
use advanced_systems_program.Calendar.Program.{
  empty_store, is_filled, take_event, process_line, then_print, and_then, process_lines, main,
}

empty_store-IsWellFormed : IsWellFormed empty_store
empty_store-IsWellFormed = record {
  once = λ a ne. ground arith;
  unused = λ a h. ground arith;
  no_null = refl;
  fresh_pos = omega arith;
}

-- If the program has not crashed, its store is well formed.
abbrev pub Safe : Option Outcome → Type 0
Safe none = Unit
Safe (some (s, out)) = IsWellFormed s

take_event-Safe : (p : Parsed) (s : Store) → IsWellFormed s → Safe (take_event p s)
unfolding take_event
take_event-Safe (event e) s w =
    elim (Bool-cases (is_filled e.action && is_filled e.title && is_filled e.time)) [
      | inl t ↦ rw t (process_calendar-IsWellFormed e s w)
      | inr t ↦ rw t w
    ]
take_event-Safe crash s w = tt
take_event-Safe unfinished s w = tt

then_print-Safe : (ls : List Line) (o : Option Outcome) → Safe o → Safe (then_print ls o)
unfolding then_print
then_print-Safe ls none h = tt
then_print-Safe ls (some (s, out)) h = h

process_line-Safe :
    (stack : Event) (l : Bytes) (s : Store) → IsWellFormed s → Safe (process_line stack l s)
unfolding process_line
process_line-Safe stack l s w = take_event-Safe (parse_input stack (c_str l)) s w

and_then-Safe :
    (o : Option Outcome) (rest : Store → Option Outcome)
    → Safe o
    → ((s : Store) → IsWellFormed s → Safe (rest s))
    → Safe (and_then o rest)
unfolding and_then
and_then-Safe none rest h next = tt
and_then-Safe (some (s, out)) rest h next = then_print-Safe out (rest s) (next s h)

process_lines-Safe :
    (stack : ℕ → Event) (k : ℕ) (ls : List Bytes) (s : Store)
    → IsWellFormed s
    → Safe (process_lines stack k ls s)
unfolding process_lines
process_lines-Safe stack k [] s w = w
process_lines-Safe stack k (l ∷ ls) s w =
    and_then-Safe _ (process_lines stack (suc k) ls) (process_line-Safe (stack k) l s w)
      (process_lines-Safe stack (suc k) ls)

-- Whatever the input, and whatever the uninitialised events hold, the store of a run that has not
-- crashed is well formed: no two nodes share an address, no node of the list and no pending node
-- was freed, and nothing was freed twice.
pub main-IsWellFormed : (stack : ℕ → Event) (stdin : Bytes) → Safe (main stack stdin)
unfolding main
main-IsWellFormed stack stdin =
    process_lines-Safe stack 0 (fgets_lines 1999 stdin) empty_store empty_store-IsWellFormed
