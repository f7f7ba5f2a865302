-- ===== src/Calendar/Event.antt =====
-- `struct event_t` and `parseInput` of Assignment1/calendar_filter.c. A field is the whole array,
-- with the bytes behind its string, so a copy that runs over its end is seen.
pub mod Parse
pub mod Result
use advanced_systems_program.Prelude.{
  ℕ, zero, suc, Bool, true, false, ◌&&◌, Option, none, some, List, [], ◌∷◌, ◌++◌, ◌==◌, length,
  get_or, take, replicate,
}
use advanced_systems_program.CLib.{Bytes, strcpy}
use advanced_systems_program.CLib.Tokens.{strtok}

pub record Event : Type 0 where
  pub action : Bytes
  pub title : Bytes
  pub date : Bytes
  pub time : Bytes
  pub location : Bytes

pub data ParseState : Type 0 where
  at_action at_title at_date at_time at_location : ParseState

-- One round of the `while (1)`: a `return`, a fault (a copy from NULL, or over the end of an
-- array), or the next state with the token, the `strtok` position and the event so far.
pub data Round : Type 0 where
  return : Event → Round
  fault : Round
  goto : ParseState → Option Bytes → Bytes → Event → Round

unfoldable pub stored : (Bytes → Event) → ParseState → Bytes → Bytes → Option Bytes → Round
stored put next t rest none = fault
stored put next t rest (some array) = goto next (some t) rest (put array)

-- `token = strtok(NULL, ","); strcpy(field, token)`.
unfoldable pub copy_next : (Bytes → Event) → Bytes → ParseState → Option (Bytes × Bytes) → Round
unfolding stored
copy_next put array next none = fault
copy_next put array next (some (t, rest)) = stored put next t rest (strcpy array t)

-- `memcpy(Location, token, 8)` reads on behind the token: its 0, and what the line holds there.
-- The ninth byte keeps its old value.
unfoldable pub location_array : Bytes → Bytes → Bytes → Bytes
location_array t rest old =
    take 8 (t ++ 0 ∷ (rest ++ replicate 8 0)) ++ get_or old 8 0 ∷ b' ' ∷ 0 ∷ []

unfoldable pub copy_location : Event → Option (Bytes × Bytes) → Round
unfolding location_array
copy_location e none = fault
copy_location e (some (t, rest)) = return (record e { location = location_array t rest e.location })

unfoldable pub round : ParseState → Option Bytes → Bytes → Event → Round
unfolding stored copy_next copy_location
round s none rest e = return e
round at_action (some t) rest e =
    stored (λ a. record e { action = a }) at_title t rest (strcpy e.action t)
round at_title (some t) rest e =
    copy_next (λ a. record e { title = a }) e.title at_date (strtok rest)
round at_date (some t) rest e = copy_next (λ a. record e { date = a }) e.date at_time (strtok rest)
round at_time (some t) rest e =
    copy_next (λ a. record e { time = a }) e.time at_location (strtok rest)
round at_location (some t) rest e = copy_location e (strtok rest)

-- What `parseInput` gives; `unfinished` means that the fuel ran out.
pub data Parsed : Type 0 where
  event : Event → Parsed
  crash : Parsed
  unfinished : Parsed

unfoldable pub rounds : ℕ → Round → Parsed
rounds f (return e) = event e
rounds f fault = crash
rounds zero (goto s t rest e) = unfinished
rounds (suc f) (goto s t rest e) = rounds f (round s t rest e)

unfoldable pub first_token : Option (Bytes × Bytes) → Event → Round
first_token none e = goto at_action none [] e
first_token (some (t, rest)) e = goto at_action (some t) rest e

-- `stack` is what the uninitialised local variable holds. Each state goes to a later one, so five
-- rounds are enough.
unfoldable pub parse_input : Event → Bytes → Parsed
unfolding rounds first_token
parse_input stack buff = rounds 5 (first_token (strtok buff) stack)
