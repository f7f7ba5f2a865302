-- ===== src/Updater/Checks.antt =====
-- `CheckEmailString` and the checks of single fields.
pub mod Accepts
use advanced_systems_program.Prelude.{
  ℕ, Bool, true, false, not, ◌&&◌, ◌||◌, List, [], ◌∷◌, ◌==◌, if◌then◌else◌, length, all, codes,
  str_eq,
}
use advanced_systems_program.CLib.{Bytes, is_digit}
use advanced_systems_program.CLib.Streams.{all_lines}

-- `parse_state_t`; NONE is `rejected`.
pub data ParseState : Type 0 where
  at_action at_title at_date at_time at_location complete rejected : ParseState

unfoldable pub check_action : Bytes → Bool
check_action action =
    length action == 1
    && (str_eq action (codes "C") || str_eq action (codes "X") || str_eq action (codes "D"))

unfoldable pub check_title : Bytes → Bool
check_title title = length title == 10

abbrev pub is_empty : Bytes → Bool
is_empty [] = true
is_empty (c ∷ cs) = false

-- `isNum`
unfoldable pub is_number : Bytes → Bool
unfolding is_digit
is_number part = not (is_empty part) && all is_digit part

unfoldable pub check_date : Bytes → Bool
unfolding is_number all_lines
check_date date = length date == 10 && all is_number (all_lines b'/' date)

unfoldable pub check_time : Bytes → Bool
unfolding is_number all_lines
check_time time = length time == 5 && all is_number (all_lines b':' time)

unfoldable pub check_location : Bytes → Bool
check_location location = length location == 10

abbrev pub next_if : Bool → ParseState → ParseState
next_if passed state = if passed then state else rejected

-- The loop over the parts; the default case returns false.
unfoldable pub check_parts : ParseState → List Bytes → Bool
check_parts complete [] = true
check_parts at_action [] = false
check_parts at_title [] = false
check_parts at_date [] = false
check_parts at_time [] = false
check_parts at_location [] = false
check_parts rejected [] = false
check_parts at_action (p ∷ ps) = check_parts (next_if (check_action p) at_title) ps
check_parts at_title (p ∷ ps) = check_parts (next_if (check_title p) at_date) ps
check_parts at_date (p ∷ ps) = check_parts (next_if (check_date p) at_time) ps
check_parts at_time (p ∷ ps) = check_parts (next_if (check_time p) at_location) ps
check_parts at_location (p ∷ ps) = check_parts (next_if (check_location p) complete) ps
check_parts complete (p ∷ ps) = false
check_parts rejected (p ∷ ps) = false

unfoldable pub check_email : Bytes → Bool
unfolding check_parts all_lines
check_email line = check_parts at_action (all_lines b',' line)
