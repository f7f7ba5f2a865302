-- ===== src/Calendar/Event/Parse.antt =====
-- The stages of `parseInput`, each before the next, on the tokens of a line.
use advanced_systems_program.Prelude.{
  ℕ, zero, suc, ◌≤◌, ◌<◌, ◌≡◌, refl, ap, ◌∙◌, true, false, Option, none, some, List, [], ◌∷◌, ◌++◌,
  ltb, if◌then◌else◌, length, length-append, length-drop, drop, take, take-append, arith, replicate,
  ltb→lt, Bool-cases, inl, inr,
}
use advanced_systems_program.CLib.{Bytes, strcpy}
use advanced_systems_program.CLib.Tokens.{tokens, Splits, at_end, token, strtok-Splits}
use advanced_systems_program.Calendar.Event.{
  Event, ParseState, at_title, at_date, at_time, at_location, goto, stored, copy_next,
  copy_location, round, Parsed, event, crash, rounds, location_array,
}

-- The arrays have the sizes of `struct event_t`.
pub record IsEvent (e : Event) : Type 0 where
  pub action : length e.action ≡ 2
  pub title : length e.title ≡ 11
  pub date : length e.date ≡ 11
  pub time : length e.time ≡ 6
  pub location : length e.location ≡ 11

-- The array after `strcpy(array, t)`.
abbrev pub copied : Bytes → Bytes → Bytes
copied array t = t ++ 0 ∷ drop (suc (length t)) array

length-copied : (array t : Bytes) → length t < length array → length (copied array t) ≡ length array
length-copied array t h =
    omega
      (arith, length-append t (0 ∷ drop (suc (length t)) array), length-drop (suc (length t)) array)

strcpy-some :
    (array t : Bytes)
    → ltb (length t) (length array) ≡ true
    → strcpy array t ≡ some (copied array t)
unfolding strcpy
strcpy-some array t h = rw h

strcpy-none : (array t : Bytes) → ltb (length t) (length array) ≡ false → strcpy array t ≡ none
unfolding strcpy
strcpy-none array t h = rw h

-- A property of the tokens that are left, the event so far and the result.
abbrev pub Claim : Type 1
Claim = List Bytes → Event → Parsed → Type 0

-- A token is there and fits in the array; then `q` of the event with the array filled.
abbrev pub Copies : ℕ → (Event → Bytes → Event) → (Event → Bytes) → Claim → Claim
Copies size put array q [] e o = o ≡ crash
Copies size put array q (t ∷ ts) e o =
    if ltb (length t) size then q ts (put e (copied (array e) t)) o else o ≡ crash

abbrev pub Places : Claim
Places [] e o = o ≡ crash
Places (l ∷ ts) e o =
    (a : Bytes) × (o ≡ event (record e { location = a })) × (8 ≤ length l → take 8 a ≡ take 8 l)

abbrev pub Stage : ℕ → ParseState → Claim → Type 0
Stage f s q =
    (t r : Bytes) (e : Event) → IsEvent e → q (tokens r) e (rounds f (goto s (some t) r e))

take-take-append : (xs ys : Bytes) (n : ℕ) → n ≤ length xs → take n (take n xs ++ ys) ≡ take n xs
take-take-append xs ys zero h = refl
take-take-append [] ys (suc n) h = absurd (omega arith)
take-take-append (x ∷ xs) ys (suc n) h = ap (◌∷◌ x) (take-take-append xs ys n (omega arith))

take-location : (t rest old : Bytes) → 8 ≤ length t → take 8 (location_array t rest old) ≡ take 8 t
unfolding location_array
take-location t rest old long =
    take-take-append _ _ 8 (omega (arith, length-append t (0 ∷ (rest ++ replicate 8 0))))
    ∙ take-append 8 t _ long

Places-copy :
    (f : ℕ) (r : Bytes) (e : Event) {o : Option (Bytes × Bytes)}
    → Splits r o
    → Places (tokens r) e (rounds f (copy_location e o))
unfolding rounds copy_location
Places-copy f r e (at_end h) = rw h refl
Places-copy f r e (token {t} {rest} h) =
    rw h (location_array t rest e.location, refl, λ long. take-location t rest e.location long)

-- A stage that copies its token, before a stage that is known.
module _ (f size : ℕ) (put : Event → Bytes → Event) (array : Event → Bytes) (next : ParseState)
    (q : Claim) where
  pub stored-copy :
      (e : Event)
      → length (array e) ≡ size
      → ((a : Bytes) → length a ≡ size → IsEvent (put e a))
      → Stage f next q
      → (t rest : Bytes) (ts : List Bytes) → ts ≡ tokens rest
      → Copies size put array q
          (t ∷ ts)
          e
          (rounds f (stored (put e) next t rest (strcpy (array e) t)))
  unfolding stored rounds
  stored-copy e len keeps later t rest ts h = elim (Bool-cases (ltb (length t) size)) [
    | inl fit ↦
        rw (h, fit, strcpy-some (array e) t (rw len fit))
          (later t rest (put e (copied (array e) t))
            (keeps _ (length-copied (array e) t (rw len (ltb→lt fit)) ∙ len)))
    | inr over ↦ rw (over, strcpy-none (array e) t (rw len over)) refl
  ]

  Copies-copy :
      (e : Event)
      → length (array e) ≡ size
      → ((a : Bytes) → length a ≡ size → IsEvent (put e a))
      → Stage f next q
      → (r : Bytes) {o : Option (Bytes × Bytes)} → Splits r o
      → Copies size put array q (tokens r) e (rounds f (copy_next (put e) (array e) next o))
  unfolding copy_next
  Copies-copy e len keeps later r (at_end h) = rw h (unfold rounds in refl)
  Copies-copy e len keeps later r (token {t} {rest} h) =
      rw h (stored-copy e len keeps later t rest (tokens rest) refl)

abbrev pub set_title : Event → Bytes → Event
set_title e a = record e { title = a }

abbrev pub set_date : Event → Bytes → Event
set_date e a = record e { date = a }

abbrev pub set_time : Event → Bytes → Event
set_time e a = record e { time = a }

abbrev pub TimeOn : Claim
TimeOn = Copies 6 set_time (λ e. e.time) Places

abbrev pub DateOn : Claim
DateOn = Copies 11 set_date (λ e. e.date) TimeOn

abbrev pub TitleOn : Claim
TitleOn = Copies 11 set_title (λ e. e.title) DateOn

location-Stage : Stage 1 at_location Places
unfolding rounds round
location-Stage t r e w = Places-copy 0 r e (strtok-Splits r)

time-Stage : Stage 2 at_time TimeOn
unfolding rounds round
time-Stage t r e w =
    Copies-copy 1 6 set_time (λ e. e.time) at_location Places e w.time (λ a len. omega arith)
      location-Stage r (strtok-Splits r)

date-Stage : Stage 3 at_date DateOn
unfolding rounds round
date-Stage t r e w =
    Copies-copy 2 11 set_date (λ e. e.date) at_time TimeOn e w.date (λ a len. omega arith)
      time-Stage r (strtok-Splits r)

pub title-Stage : Stage 4 at_title TitleOn
unfolding rounds round
title-Stage t r e w =
    Copies-copy 3 11 set_title (λ e. e.title) at_date DateOn e w.title (λ a len. omega arith)
      date-Stage r (strtok-Splits r)
