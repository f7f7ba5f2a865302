-- ===== src/Calendar/Program.antt =====
-- `main` of Assignment1/calendar_filter.c.
pub mod Runs
use advanced_systems_program.Prelude.{
  ℕ, suc, ◌-◌, Bool, not, ◌&&◌, Option, none, some, List, [], ◌∷◌, ◌++◌, ◌==◌, if◌then◌else◌,
  length,
}
use advanced_systems_program.CLib.{Bytes, c_str}
use advanced_systems_program.CLib.Lines.{fgets_lines}
use advanced_systems_program.Calendar.Event.{Event, Parsed, event, crash, unfinished, parse_input}
use advanced_systems_program.Calendar.Store.{Store, null}
use advanced_systems_program.Calendar.Handlers.{Line, unparsed, Outcome, process_calendar}

abbrev pub buffer_size : ℕ
buffer_size = 2000

abbrev pub empty_store : Store
empty_store = record { calendar = []; delete_ptr = null; freed = []; fresh = 1 }

-- `strlen(a) != 0`
abbrev pub is_filled : Bytes → Bool
is_filled a = not (length (c_str a) == 0)

-- `none` is a crash of the program.
unfoldable pub take_event : Parsed → Store → Option Outcome
take_event (event e) s = some (
    if is_filled e.action && is_filled e.title && is_filled e.time
    then process_calendar e s
    else (s, unparsed ∷ []))
take_event crash s = none
take_event unfinished s = none

unfoldable pub process_line : Event → Bytes → Store → Option Outcome
unfolding take_event
process_line stack line s = take_event (parse_input stack (c_str line)) s

unfoldable pub then_print : List Line → Option Outcome → Option Outcome
then_print ls none = none
then_print ls (some (s, ms)) = some (s, ls ++ ms)

unfoldable pub and_then : Option Outcome → (Store → Option Outcome) → Option Outcome
unfolding then_print
and_then none rest = none
and_then (some (s, out)) rest = then_print out (rest s)

-- The loop of `main`; `stack k` is what the uninitialised event of `parseInput` holds at line `k`.
unfoldable pub process_lines : (ℕ → Event) → ℕ → List Bytes → Store → Option Outcome
unfolding and_then
process_lines stack k [] s = some (s, [])
process_lines stack k (l ∷ ls) s =
    and_then (process_line (stack k) l s) (process_lines stack (suc k) ls)

unfoldable pub main : (ℕ → Event) → Bytes → Option Outcome
unfolding process_lines
main stack stdin = process_lines stack 0 (fgets_lines (buffer_size - 1) stdin) empty_store
