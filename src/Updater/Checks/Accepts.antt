-- ===== src/Updater/Checks/Accepts.antt =====
-- What the checks accept.
use advanced_systems_program.Prelude.{
  ℕ, ◌≡◌, refl, ap, ◌∙◌, Bool, true, false, ◌&&◌, List, [], ◌∷◌, ◌==◌, if◌then◌else◌, length, all,
  arith, Bool-cases, inl, inr,
}
use advanced_systems_program.CLib.{Bytes, is_digit}
use advanced_systems_program.CLib.Streams.{all_lines, push, parts, all_lines-parts}
use advanced_systems_program.Updater.Checks.{
  ParseState, at_action, at_title, at_date, at_time, at_location, complete, rejected, check_action,
  check_title, is_number, check_date, check_time, check_location, next_if, check_parts, check_email,
}

-- There are five parts and no more, each as its check wants it.
unfoldable pub five_parts : List Bytes → Bool
five_parts (a ∷ t ∷ d ∷ h ∷ l ∷ []) =
    check_action a && check_title t && check_date d && check_time h && check_location l
five_parts ts = false

check_parts-rejected : (ps : List Bytes) → check_parts rejected ps ≡ false
unfolding check_parts
check_parts-rejected [] = refl
check_parts-rejected (p ∷ ps) = refl

-- One part passes and the others satisfy `q`.
next_state :
    (b : Bool) (s : ParseState) (ps : List Bytes)
    → check_parts (next_if b s) ps ≡ (b && check_parts s ps)
next_state true s ps = refl
next_state false s ps = check_parts-rejected ps

at_five :
    (a t d h l : Bytes) (ps : List Bytes)
    → check_parts at_action (a ∷ t ∷ d ∷ h ∷ l ∷ ps) ≡ (
        check_action a
        && check_title t
        && check_date d
        && check_time h
        && check_location l
        && check_parts complete ps)
unfolding check_parts
at_five a t d h l ps = ground (
  arith,
  next_state (check_action a) at_title (t ∷ d ∷ h ∷ l ∷ ps),
  next_state (check_title t) at_date (d ∷ h ∷ l ∷ ps),
  next_state (check_date d) at_time (h ∷ l ∷ ps),
  next_state (check_time h) at_location (l ∷ ps),
  next_state (check_location l) complete ps,
)

check_parts-five_parts : (ps : List Bytes) → check_parts at_action ps ≡ five_parts ps
unfolding check_parts five_parts
check_parts-five_parts [] = refl
check_parts-five_parts (a ∷ []) = ground (arith, next_state (check_action a) at_title [])
check_parts-five_parts (a ∷ t ∷ []) =
    ground
      (arith, next_state (check_action a) at_title (t ∷ []), next_state (check_title t) at_date [])
check_parts-five_parts (a ∷ t ∷ d ∷ []) = ground (
  arith,
  next_state (check_action a) at_title (t ∷ d ∷ []),
  next_state (check_title t) at_date (d ∷ []),
  next_state (check_date d) at_time [],
)
check_parts-five_parts (a ∷ t ∷ d ∷ h ∷ []) = ground (
  arith,
  next_state (check_action a) at_title (t ∷ d ∷ h ∷ []),
  next_state (check_title t) at_date (d ∷ h ∷ []),
  next_state (check_date d) at_time (h ∷ []),
  next_state (check_time h) at_location [],
)
check_parts-five_parts (a ∷ t ∷ d ∷ h ∷ l ∷ []) = at_five a t d h l [] ∙ ground arith
check_parts-five_parts (a ∷ t ∷ d ∷ h ∷ l ∷ m ∷ ps) = at_five a t d h l (m ∷ ps) ∙ ground arith

-- `CheckEmailString` accepts a line exactly if it has five parts between commas, a comma at the end
-- of the line not counted, and these pass the checks of action, title, date, time and location.
pub check_email-five_parts : (line : Bytes) → check_email line ≡ five_parts (parts b',' line)
unfolding check_email
check_email-five_parts line =
    ap (check_parts at_action) (all_lines-parts b',' line)
    ∙ check_parts-five_parts (parts b',' line)

-- Digits and separators, with a digit before each separator; `after_digit` says what came before.
unfoldable pub separated : (sep : ℕ) (after_digit : Bool) → Bytes → Bool
separated sep after [] = true
separated sep after (c ∷ cs) =
    if c == sep then after && separated sep false cs else is_digit c && separated sep true cs

-- The parts of `s`, the first of them with `begun` bytes before it.
abbrev numbers_after : Bool → List Bytes → Bool
numbers_after true [] = true
numbers_after true (p ∷ ps) = all is_digit p && all is_number ps
numbers_after false ps = all is_number ps

push-numbers_after :
    (begun : Bool) (c : ℕ) (ps : List Bytes)
    → numbers_after begun (push c ps) ≡ (is_digit c && numbers_after true ps)
unfolding is_number
push-numbers_after true c [] = ground arith
push-numbers_after true c (p ∷ ps) = ground arith
push-numbers_after false c [] = ground arith
push-numbers_after false c (p ∷ ps) = ground arith

after_sep :
    (begun : Bool) (ps : List Bytes)
    → numbers_after begun ([] ∷ ps) ≡ (begun && numbers_after false ps)
unfolding is_number
after_sep true ps = refl
after_sep false ps = refl

parts-separated :
    (sep : ℕ) (begun : Bool) (s : Bytes) → numbers_after begun (parts sep s) ≡ separated sep begun s
unfolding parts separated
parts-separated sep true [] = refl
parts-separated sep false [] = refl
parts-separated sep begun (c ∷ cs) = elim (Bool-cases (c == sep)) [
  | inl e ↦
      rw e (after_sep begun (parts sep cs) ∙ ap (λ b. begun && b) (parts-separated sep false cs))
  | inr e ↦ rw e (
      push-numbers_after begun c (parts sep cs)
      ∙ ap (λ b. is_digit c && b) (parts-separated sep true cs))
]

numbers-separated : (sep : ℕ) (s : Bytes) → all is_number (all_lines sep s) ≡ separated sep false s
numbers-separated sep s = rw (all_lines-parts sep s) (parts-separated sep false s)

-- `CheckDate` and `CheckTime` accept ten and five bytes, digits and separators, with a digit before
-- each separator; how many separators there are, and where, is left open.
pub check_date_time-separated :
    (s : Bytes)
    → (check_date s ≡ (length s == 10 && separated b'/' false s))
      × (check_time s ≡ (length s == 5 && separated b':' false s))
unfolding check_date check_time
check_date_time-separated s = (
  ap (λ b. length s == 10 && b) (numbers-separated b'/' s),
  ap (λ b. length s == 5 && b) (numbers-separated b':' s),
)

digits-separated :
    (sep : ℕ) (begun : Bool) (s : Bytes)
    → is_digit sep ≡ false
    → all is_digit s ≡ true
    → separated sep begun s ≡ true
unfolding separated
digits-separated sep begun [] h d = refl
digits-separated sep begun (c ∷ cs) h d = elim (Bool-cases (c == sep)) [
  | inl e ↦ absurd (unfold is_digit in ground arith)
  | inr e ↦ rw e (ground (arith, digits-separated sep true cs h))
]

-- Ten digits without any separator are a date, and five are a time.
pub digits-check_date_time :
    (s : Bytes)
    → all is_digit s ≡ true
    → (check_date s ≡ (length s == 10)) × (check_time s ≡ (length s == 5))
digits-check_date_time s h =
    let c = check_date_time-separated s in
    let d = digits-separated b'/' false s (unfold is_digit in refl) h in
    let t = digits-separated b':' false s (unfold is_digit in refl) h in
    (ground arith, ground arith)
