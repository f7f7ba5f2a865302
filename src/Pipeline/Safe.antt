-- ===== src/Pipeline/Safe.antt =====
-- A line that the filter lets through, in `parseInput` of the calendar.
use advanced_systems_program.Prelude.{
  ◌≡◌, ◌∙◌, sym, Bool, true, some, List, ◌∷◌, length, all, arith, ◌&&◌, false, refl, if◌then◌else◌,
}
use mathlib.Core.Path.{subst}
use advanced_systems_program.Prelude.Int.{pos, eq_of_is_zero}
use advanced_systems_program.CLib.{Bytes}
use advanced_systems_program.CLib.Tokens.{tokens}
use advanced_systems_program.EmailFilter.{
  is_well_formed, check_action, check_title_location_length, check_date, check_time,
}
use advanced_systems_program.EmailFilter.Checks.{
  check_date-zero_iff, check_time-zero_iff, check_title-zero_iff, not_newline,
}
use advanced_systems_program.EmailFilter.Machine.{five_fields, passes, is_well_formed-five_fields}
use advanced_systems_program.Calendar.Event.{Event, event, parse_input}
use advanced_systems_program.Calendar.Event.Parse.{IsEvent}
use advanced_systems_program.Calendar.Event.Result.{Fields, Outcome, all_fit, parse_input-Outcome}

some_zero : (b : Bool) → some (if b then pos 0 else pos 1) ≡ some (pos 0) → b ≡ true
some_zero true h = refl
some_zero false h = ground arith

chosen : (b : Bool) (X Y : Type 0) → b ≡ true → (if b then X else Y) → X
chosen b X Y e h = rw e at h

sizes-all_fit :
    (a t d h : Bytes)
    → length a ≡ 1
    → length t ≡ 10
    → length d ≡ 10
    → length h ≡ 5
    → all_fit a t d h ≡ true
sizes-all_fit a t d h p q r s = ground arith

middle_three :
    (a t d h l : Bool) → (a && t && d && h && l) ≡ true → (t ≡ true) × (d ≡ true) × (h ≡ true)
middle_three a t d h l p = ground arith

module _ (a t d h l : Bytes) (ts : List Bytes) where
  well_formed-all_fit :
      five_fields (a ∷ t ∷ d ∷ h ∷ l ∷ ts) ≡ true
      → length a ≡ 1
      → all not_newline t ≡ true
      → all_fit a t d h ≡ true
  unfolding five_fields
  well_formed-all_fit five one plain =
      let (pt, pd, ph) =
        middle_three (passes check_action a) (passes check_title_location_length t)
          (passes check_date d) (passes check_time h) (passes check_title_location_length l) five in
      let title : length t ≡ 10 = (check_title-zero_iff t plain).0 (eq_of_is_zero _ pt) in
      let date : length d ≡ 10 = ((check_date-zero_iff d).0 (eq_of_is_zero _ pd)).0 in
      let time : length h ≡ 5 = ((check_time-zero_iff h).0 (eq_of_is_zero _ ph)).0 in
      sizes-all_fit a t d h one title date time

  -- A text that `isWellFormed` accepts, whose action token is one byte and whose title token holds
  -- no newline, is parsed without a fault: every token fits in its array, and the event holds
  -- them.
  pub parse_input-well_formed :
      (stack : Event)
      → IsEvent stack
      → (s : Bytes) → tokens s ≡ a ∷ t ∷ d ∷ h ∷ l ∷ ts
      → is_well_formed s ≡ some (pos 0)
      → length a ≡ 1
      → all not_newline t ≡ true
      → (e : Event) × (parse_input stack s ≡ event e) × Fields stack e a t d h l
  parse_input-well_formed stack w s split ok one plain =
      let five : five_fields (tokens s) ≡ true =
        some_zero (five_fields (tokens s)) (sym (is_well_formed-five_fields s) ∙ ok) in
      let fit = well_formed-all_fit (rw split at five) one plain in
      let o : Outcome stack (a ∷ t ∷ d ∷ h ∷ l ∷ ts) (parse_input stack s) =
        subst (λ x. Outcome stack x (parse_input stack s)) split (parse_input-Outcome stack w s) in
      chosen (all_fit a t d h) _ _ fit o
