-- ===== src/Calendar/Event/Result.antt =====
-- What `parseInput` makes of the tokens of a line.
use advanced_systems_program.Prelude.{
  ℕ, ◌≤◌, ◌≡◌, refl, Bool, true, false, ◌&&◌, Option, List, [], ◌∷◌, ltb, if◌then◌else◌, length,
  take, arith,
}
use advanced_systems_program.CLib.{Bytes}
use advanced_systems_program.CLib.Tokens.{tokens, Splits, at_end, token, strtok-Splits}
use advanced_systems_program.Calendar.Event.{
  Event, at_title, Parsed, event, crash, rounds, round, first_token, parse_input,
}
use advanced_systems_program.Calendar.Event.Parse.{
  IsEvent, copied, Claim, Copies, Places, TitleOn, title-Stage, stored-copy, set_title, set_date,
  set_time,
}

abbrev fits : Bytes → ℕ → Bool
fits t size = ltb (length t) size

abbrev set_action : Event → Bytes → Event
set_action e a = record e { action = a }

-- What the first token makes of the event that the stack held.
abbrev ActionOn : Claim
ActionOn [] e o = o ≡ event e
ActionOn (a ∷ ts) e o = Copies 2 set_action (λ e. e.action) TitleOn (a ∷ ts) e o

action_stage :
    (stack : Event)
    → IsEvent stack
    → (s : Bytes) {o : Option (Bytes × Bytes)} → Splits s o
    → ActionOn (tokens s) stack (rounds 5 (first_token o stack))
unfolding rounds round first_token
action_stage stack w s (at_end h) = rw h refl
action_stage stack w s (token {t} {rest} h) = rw h (
    stored-copy 4 2 set_action (λ e. e.action) at_title TitleOn stack w.action
      (λ a len. omega arith) title-Stage t rest (tokens rest) refl)

-- The four copied arrays, and the first eight bytes of the fifth.
pub record Fields (stack e : Event) (a t d h l : Bytes) : Type 0 where
  pub action : e.action ≡ copied stack.action a
  pub title : e.title ≡ copied stack.title t
  pub date : e.date ≡ copied stack.date d
  pub time : e.time ≡ copied stack.time h
  pub location : 8 ≤ length l → take 8 e.location ≡ take 8 l

-- The four copied tokens fit in their arrays, with the 0 behind them.
abbrev pub all_fit : (a t d h : Bytes) → Bool
all_fit a t d h = fits a 2 && fits t 11 && fits d 11 && fits h 6

-- The result that belongs to the tokens of a line.
abbrev pub Outcome : Event → List Bytes → Parsed → Type 0
Outcome stack [] o = o ≡ event stack
Outcome stack (a ∷ t ∷ d ∷ h ∷ l ∷ ts) o =
    if all_fit a t d h then ((e : Event) × (o ≡ event e) × Fields stack e a t d h l) else o ≡ crash
Outcome stack _ o = o ≡ crash

-- Tests one inside the other, with one result if any fails.
all_four :
    (b c d e : Bool) (X Z : Type 0)
    → (if b then (if c then (if d then (if e then X else Z) else Z) else Z) else Z)
    → (if b && c && d && e then X else Z)
all_four true true true true X Z p = p
all_four true true true false X Z p = p
all_four true true false e X Z p = p
all_four true false d e X Z p = p
all_four false c d e X Z p = p

either_way : (b : Bool) (Z : Type 0) → (if b then Z else Z) → Z
either_way true Z p = p
either_way false Z p = p

any_way :
    (b c d e : Bool) (Z : Type 0)
    → (if b then (if c then (if d then (if e then Z else Z) else Z) else Z) else Z)
    → Z
any_way b c d e Z p = either_way (b && c && d && e) Z (all_four b c d e Z Z p)

map_if : (b : Bool) (X Y Z : Type 0) → (X → Y) → (if b then X else Z) → (if b then Y else Z)
map_if true X Y Z f p = f p
map_if false X Y Z f p = p

Fields-Places :
    (stack : Event) (a t d h l : Bytes) (ts : List Bytes) (o : Parsed)
    → Places
        (l ∷ ts)
        (set_time
          (set_date
            (set_title (set_action stack (copied stack.action a)) (copied stack.title t))
            (copied stack.date d))
          (copied stack.time h))
        o
    → (e : Event) × (o ≡ event e) × Fields stack e a t d h l
Fields-Places stack a t d h l ts o (x, e, start) =
    (_, e, record { action = refl; title = refl; date = refl; time = refl; location = start })

Outcome-ActionOn :
    (stack : Event) (ts : List Bytes) (o : Parsed) → ActionOn ts stack o → Outcome stack ts o
Outcome-ActionOn stack [] o c = c
Outcome-ActionOn stack (a ∷ []) o c = any_way (fits a 2) true true true (o ≡ crash) c
Outcome-ActionOn stack (a ∷ t ∷ []) o c = any_way (fits a 2) (fits t 11) true true (o ≡ crash) c
Outcome-ActionOn stack (a ∷ t ∷ d ∷ []) o c =
    any_way (fits a 2) (fits t 11) (fits d 11) true (o ≡ crash) c
Outcome-ActionOn stack (a ∷ t ∷ d ∷ h ∷ []) o c =
    any_way (fits a 2) (fits t 11) (fits d 11) (fits h 6) (o ≡ crash) c
Outcome-ActionOn stack (a ∷ t ∷ d ∷ h ∷ l ∷ ts) o c =
    map_if (all_fit a t d h) _ _ (o ≡ crash) (Fields-Places stack a t d h l ts o)
      (all_four (fits a 2) (fits t 11) (fits d 11) (fits h 6) _ (o ≡ crash) c)

-- On an event of the right sizes `parseInput` always returns. A line with no token gives what the
-- stack held. With at least five tokens of which the first four fit in their arrays, it gives the
-- event that holds them, and the first eight bytes of the fifth if it is that long. Any other line
-- makes it copy from NULL or write over the end of an array.
pub parse_input-Outcome :
    (stack : Event) → IsEvent stack → (s : Bytes) → Outcome stack (tokens s) (parse_input stack s)
unfolding parse_input
parse_input-Outcome stack w s =
    Outcome-ActionOn stack (tokens s) _ (action_stage stack w s (strtok-Splits s))
