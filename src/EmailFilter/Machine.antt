-- ===== src/EmailFilter/Machine.antt =====
-- The state machine of `isWellFormed` decides a property of the first five tokens.
use advanced_systems_program.Prelude.{
  ℕ, ◌≡◌, refl, Bool, true, false, ◌&&◌, Option, none, some, List, [], ◌∷◌, if◌then◌else◌, arith,
  zero, suc, inl, inr, Bool-cases, ap, ◌∙◌,
}
use advanced_systems_program.Prelude.Int.{ℤ, pos, is_zero}
use advanced_systems_program.CLib.{Bytes}
use advanced_systems_program.CLib.Tokens.{tokens, Splits, at_end, token, strtok-Splits}
use advanced_systems_program.EmailFilter.{
  check_action, check_title_location_length, check_date, check_time, ParseState, action, title,
  date, time, location, bad, return, goto, turn, turns, advance, finish, begin, is_well_formed,
}

-- A field that is there and passes its check.
abbrev pub passes : (Option Bytes → ℤ) → Bytes → Bool
passes check t = is_zero (check (some t))

-- There are five tokens, each as its check wants it; what follows them is not looked at.
unfoldable pub five_fields : List Bytes → Bool
five_fields (a ∷ t ∷ d ∷ h ∷ l ∷ _) =
    passes check_action a
    && passes check_title_location_length t
    && passes check_date d
    && passes check_time h
    && passes check_title_location_length l
five_fields _ = false

abbrev pub verdict : Bool → ℤ
verdict b = if b then pos 0 else pos 1

-- One token passes its check, and the others satisfy `q`.
abbrev field : (Option Bytes → ℤ) → (List Bytes → Bool) → List Bytes → Bool
field check q [] = false
field check q (t ∷ ts) = passes check t && q ts

abbrev anything : List Bytes → Bool
anything ts = true

turns-return : (f : ℕ) (v : ℤ) → turns f (return v) ≡ some v
unfolding turns
turns-return zero v = refl
turns-return (suc f) v = refl

turns-bad : (f : ℕ) (t : Option Bytes) (r : Bytes) → turns (suc f) (goto bad t r) ≡ some (pos 1)
unfolding turns turn
turns-bad f t r = turns-return f (pos 1)

-- From a state on, the machine decides `q` of the tokens that are left.
abbrev Decides : ℕ → ParseState → (List Bytes → Bool) → Type 0
Decides f s q = (t r : Bytes) → turns f (goto s (some t) r) ≡ some (verdict (q (tokens r)))

turns-advance :
    (f : ℕ) (check : Option Bytes → ℤ) (s : ParseState) (q : List Bytes → Bool)
    → is_zero (check none) ≡ false
    → Decides (suc f) s q
    → (r : Bytes) {o : Option (Bytes × Bytes)} → Splits r o
    → turns (suc f) (advance check s o r) ≡ some (verdict (field check q (tokens r)))
unfolding advance
turns-advance f check s q null next r (at_end e) = rw (null, e) (turns-bad f none r)
turns-advance f check s q null next r (token {t} {rest} e) =
    elim (Bool-cases (is_zero (check (some t)))) [
      | inl h ↦ rw (e, h) (next t rest)
      | inr h ↦ rw (e, h) (turns-bad f (some t) rest)
    ]

turns-finish :
    (f : ℕ) (check : Option Bytes → ℤ)
    → is_zero (check none) ≡ false
    → (r : Bytes) {o : Option (Bytes × Bytes)} → Splits r o
    → turns f (finish check o) ≡ some (verdict (field check anything (tokens r)))
unfolding finish
turns-finish f check null r (at_end e) = rw (null, e) (turns-return f _)
turns-finish f check null r (token {t} {rest} e) = elim (Bool-cases (is_zero (check (some t)))) [
  | inl h ↦ rw (e, h) (turns-return f _)
  | inr h ↦ rw (e, h) (turns-return f _)
]

from_location : Decides 2 location (field check_title_location_length anything)
unfolding turns turn check_title_location_length
from_location t r = turns-finish 1 check_title_location_length refl r (strtok-Splits r)

abbrev time_on : List Bytes → Bool
time_on = field check_time (field check_title_location_length anything)

from_time : Decides 3 time time_on
unfolding turns turn check_time
from_time t r = turns-advance 1 check_time location _ refl from_location r (strtok-Splits r)

abbrev date_on : List Bytes → Bool
date_on = field check_date time_on

from_date : Decides 4 date date_on
unfolding turns turn check_date
from_date t r = turns-advance 2 check_date time _ refl from_time r (strtok-Splits r)

abbrev title_on : List Bytes → Bool
title_on = field check_title_location_length date_on

from_title : Decides 5 title title_on
unfolding turns turn check_title_location_length
from_title t r =
    turns-advance 3 check_title_location_length date _ refl from_date r (strtok-Splits r)

from_action :
    (t r : Bytes)
    → turns 6 (goto action (some t) r)
      ≡ some (verdict (passes check_action t && title_on (tokens r)))
unfolding turns turn
from_action t r = elim (Bool-cases (is_zero (check_action (some t)))) [
  | inl h ↦ rw h (ap (λ b. turns 5 (goto (if b then title else bad) (some t) r)) h ∙ from_title t r)
  | inr h ↦ rw h (ap (λ b. turns 5 (goto (if b then title else bad) (some t) r)) h)
]

from_begin :
    (s : Bytes) {o : Option (Bytes × Bytes)}
    → Splits s o
    → turns 6 (begin o) ≡ some (verdict (field check_action title_on (tokens s)))
unfolding begin
from_begin s (at_end e) = rw e (unfold turns turn in refl)
from_begin s (token {t} {rest} e) = rw e (from_action t rest)

five_fields-field : (ts : List Bytes) → field check_action title_on ts ≡ five_fields ts
unfolding five_fields
five_fields-field [] = refl
five_fields-field (a ∷ []) = ground arith
five_fields-field (a ∷ t ∷ []) = ground arith
five_fields-field (a ∷ t ∷ d ∷ []) = ground arith
five_fields-field (a ∷ t ∷ d ∷ h ∷ []) = ground arith
five_fields-field (a ∷ t ∷ d ∷ h ∷ l ∷ ts) = ground arith

-- `isWellFormed` returns on every string, within the six rounds: 0 if the first five of the
-- non-empty pieces between commas are there and pass the checks of action, title, date, time and
-- location, in this order, and 1 otherwise.
pub is_well_formed-five_fields :
    (s : Bytes) → is_well_formed s ≡ some (if five_fields (tokens s) then pos 0 else pos 1)
unfolding is_well_formed
is_well_formed-five_fields s = rw (← five_fields-field (tokens s)) (from_begin s (strtok-Splits s))
