-- ===== src/EmailFilter.antt =====
-- Assignment1/email_filter.c: the checks of the five fields of an event line, the state machine
-- `isWellFormed`, and `main`, which passes on the well-formed lines without their first nine bytes.
-- A token is `none` for NULL. The checks return the C int that the code returns.
pub mod Checks
pub mod Machine
pub mod Run
mod Tests
use advanced_systems_program.Prelude.{
  ℕ, zero, suc, ◌+◌, ◌-◌, Bool, true, false, not, ◌&&◌, ◌||◌, Option, none, some, List, [], ◌∷◌,
  ◌++◌, ◌==◌, if◌then◌else◌, length, any, get_or, drop,
}
use advanced_systems_program.Prelude.Int.{ℤ, pos, negsuc, is_zero}
use advanced_systems_program.CLib.{Bytes, c_str, is_digit}
use advanced_systems_program.CLib.Lines.{fgets_lines}
use advanced_systems_program.CLib.Tokens.{strtok}

abbrev is_action : ℕ → Bool
is_action c = c == b'C' || c == b'D' || c == b'X'

unfoldable pub check_action : Option Bytes → ℤ
check_action none = negsuc 0
check_action (some buff) = if any is_action buff then pos 0 else pos 1

-- `buff[length - k]`, read only where the string is long enough.
abbrev pub from_end : Bytes → ℕ → ℕ
from_end buff k = get_or buff (length buff - k) 0

unfoldable pub check_title_location_length : Option Bytes → ℤ
check_title_location_length none = negsuc 0
check_title_location_length (some buff) =
    if length buff == 10
    then pos 0
    else if length buff == 11 && from_end buff 1 == b'\n'
    then pos 0
    else if length buff == 12 && from_end buff 2 == b'\n' && from_end buff 1 == b'\r'
    then pos 0
    else pos 1

-- The `for` loops of `checkDate` and `checkTime` from index `i` on: the digits outside the
-- positions of the separators.
unfoldable pub digits_outside : (ℕ → Bool) → ℕ → Bytes → Bool
digits_outside sep i [] = true
digits_outside sep i (c ∷ cs) = (sep i || is_digit c) && digits_outside sep (i + 1) cs

abbrev pub date_sep : ℕ → Bool
date_sep i = i == 2 || i == 5

unfoldable pub check_date : Option Bytes → ℤ
check_date none = negsuc 0
check_date (some buff) =
    if not (length buff == 10)
    then negsuc 0
    else if not (get_or buff 2 0 == b'/') && not (get_or buff 5 0 == b'/')
    then negsuc 0
    else if digits_outside date_sep 0 buff
    then pos 0
    else negsuc 0

abbrev pub time_sep : ℕ → Bool
time_sep i = i == 2

unfoldable pub check_time : Option Bytes → ℤ
check_time none = negsuc 0
check_time (some buff) =
    if not (length buff == 5)
    then negsuc 0
    else if not (get_or buff 2 0 == b':')
    then negsuc 0
    else if digits_outside time_sep 0 buff
    then pos 0
    else negsuc 0

-- `parse_state_t`; NONE is `bad`.
pub data ParseState : Type 0 where
  action title date time location bad : ParseState

-- One round of the `while (1)`: a `return`, or the next state, token and `strtok` position.
pub data Turn : Type 0 where
  return : ℤ → Turn
  goto : ParseState → Option Bytes → Bytes → Turn

-- `token = strtok(NULL, ",")`, then `state = (!check(token)) ? next : NONE`.
unfoldable pub advance : (Option Bytes → ℤ) → ParseState → Option (Bytes × Bytes) → Bytes → Turn
advance check next none rest = goto (if is_zero (check none) then next else bad) none rest
advance check next (some (t, rest')) rest =
    goto (if is_zero (check (some t)) then next else bad) (some t) rest'

unfoldable pub finish : (Option Bytes → ℤ) → Option (Bytes × Bytes) → Turn
finish check none = return (if is_zero (check none) then pos 0 else pos 1)
finish check (some (t, rest)) = return (if is_zero (check (some t)) then pos 0 else pos 1)

unfoldable pub turn : ParseState → Option Bytes → Bytes → Turn
unfolding advance finish
turn bad token rest = return (pos 1)
turn action none rest = return (pos 1)
turn action (some t) rest =
    goto (if is_zero (check_action (some t)) then title else bad) (some t) rest
turn title none rest = return (pos 1)
turn title (some t) rest = advance check_title_location_length date (strtok rest) rest
turn date none rest = return (pos 1)
turn date (some t) rest = advance check_date time (strtok rest) rest
turn time none rest = return (pos 1)
turn time (some t) rest = advance check_time location (strtok rest) rest
turn location none rest = return (pos 1)
turn location (some t) rest = finish check_title_location_length (strtok rest)

-- The loop on fuel; `none` means that the fuel ran out.
unfoldable pub turns : ℕ → Turn → Option ℤ
turns zero (return v) = some v
turns zero (goto s t rest) = none
turns (suc f) (return v) = some v
turns (suc f) (goto s t rest) = turns f (turn s t rest)

unfoldable pub begin : Option (Bytes × Bytes) → Turn
begin none = goto action none []
begin (some (t, rest)) = goto action (some t) rest

-- Each state goes to a later one, so six rounds are enough.
unfoldable pub is_well_formed : Bytes → Option ℤ
unfolding turns begin
is_well_formed buff = turns 6 (begin (strtok buff))

abbrev accepted : Option ℤ → Bool
accepted none = false
accepted (some v) = is_zero v

abbrev pub buffer_size : ℕ
buffer_size = 2000

-- The body of the loop of `main`: the printed text of an accepted line. `strcpy` copies it up to its
-- first 0 byte into an array that was zeroed, so a copy of fewer than nine bytes reads as empty from
-- there; `printf` prints the line itself from its tenth byte to the next 0.
unfoldable pub filter_line : Bytes → Option Bytes
filter_line line =
    if accepted (is_well_formed (drop 9 (c_str line))) then some (c_str (drop 9 line)) else none

unfoldable pub print_accepted : Option Bytes → Bytes → Bytes
print_accepted none out = out
print_accepted (some l) out = l ++ out

unfoldable pub count_accepted : Option Bytes → ℕ → ℕ
count_accepted none n = n
count_accepted (some l) n = suc n

-- The printed text and the number of events.
unfoldable pub filter_lines : List Bytes → Bytes × ℕ
unfolding print_accepted count_accepted
filter_lines [] = ([], 0)
filter_lines (l ∷ ls) =
    let (out, n) = filter_lines ls in
    (print_accepted (filter_line l) out, count_accepted (filter_line l) n)

unfoldable pub main : Bytes → Bytes × ℕ
unfolding filter_lines
main stdin = filter_lines (fgets_lines (buffer_size - 1) stdin)
