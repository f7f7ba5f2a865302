-- ===== src/SharedUpdater/Texts.antt =====
-- An email that `CheckEmailString` accepts fits in an array of the ring.
use advanced_systems_program.Prelude.{
  ℕ, zero, suc, ◌+◌, ◌≤◌, ◌≡◌, refl, sym, ap, ◌∙◌, Bool, true, not, some, List, [], ◌∷◌, ◌==◌, ltb,
  length, all, take, drop, str_eq, codes, arith, Bool-cases, Option-cases, inl, inr,
}
use advanced_systems_program.CLib.{Bytes, c_str}
use advanced_systems_program.CLib.Search.{behind}
use advanced_systems_program.CLib.Streams.{push, parts}
use advanced_systems_program.Updater.Checks.{
  check_email, check_action, check_title, check_date, check_time, check_location,
}
use advanced_systems_program.Updater.Checks.Accepts.{five_parts, check_email-five_parts}
use advanced_systems_program.Updater.Threads.{after_subject, found_email}
use advanced_systems_program.SharedUpdater.Queue.{IsText}
use advanced_systems_program.SharedUpdater.Refinement.{AreTexts}

-- The bytes of the parts, with a separator behind each.
abbrev spread : List Bytes → ℕ
spread [] = 0
spread (p ∷ ps) = suc (length p) + spread ps

spread-push : (c : ℕ) (ps : List Bytes) → suc (spread ps) ≤ spread (push c ps)
spread-push c [] = omega arith
spread-push c (p ∷ ps) = omega arith

length-parts : (d : ℕ) (s : Bytes) → length s ≤ spread (parts d s)
unfolding parts
length-parts d [] = omega arith
length-parts d (c ∷ cs) = elim (Bool-cases (c == d)) [
  | inl e ↦ rw e (let h = length-parts d cs in omega arith)
  | inr e ↦ rw e (let h = length-parts d cs in let p = spread-push c (parts d cs) in omega arith)
]

five_parts-spread : (ps : List Bytes) → five_parts ps ≡ true → spread ps ≤ 41
unfolding five_parts check_action check_title check_date check_time check_location
five_parts-spread [] h = absurd (ground arith)
five_parts-spread (a ∷ []) h = absurd (ground arith)
five_parts-spread (a ∷ t ∷ []) h = absurd (ground arith)
five_parts-spread (a ∷ t ∷ d ∷ []) h = absurd (ground arith)
five_parts-spread (a ∷ t ∷ d ∷ k ∷ []) h = absurd (ground arith)
five_parts-spread (a ∷ t ∷ d ∷ k ∷ l ∷ m ∷ ps) h = absurd (ground arith)
five_parts-spread (a ∷ t ∷ d ∷ k ∷ l ∷ []) h = ground arith

-- An accepted email has at most 41 bytes.
pub check_email-length : (email : Bytes) → check_email email ≡ true → length email ≤ 41
check_email-length email h =
    let spread_le = five_parts-spread (parts b',' email) (sym (check_email-five_parts email) ∙ h) in
    let l = length-parts b',' email in omega arith

abbrev pub no_zero : Bytes → Bool
no_zero = all λ c. not (c == 0)

drop-no_zero : (n : ℕ) (s : Bytes) → no_zero s ≡ true → no_zero (drop n s) ≡ true
drop-no_zero zero s h = h
drop-no_zero (suc n) [] h = refl
drop-no_zero (suc n) (c ∷ cs) h = drop-no_zero n cs (ground arith)

behind-no_zero :
    (marker s : Bytes) {rest : Bytes}
    → no_zero s ≡ true
    → behind marker s ≡ some rest
    → no_zero rest ≡ true
unfolding behind
behind-no_zero marker [] z h = absurd (ground arith)
behind-no_zero marker (c ∷ cs) {rest} z h =
    elim (Bool-cases (str_eq (take (length marker) (c ∷ cs)) marker)) [
      | inl e ↦
          let same : drop (length marker) (c ∷ cs) ≡ rest = ground arith in
          ap no_zero (sym same) ∙ drop-no_zero (length marker) (c ∷ cs) z
      | inr e ↦ behind-no_zero marker cs {rest = rest} (ground arith) (ground arith)
    ]

-- The emails of a line without a 0 byte leave room for a 0 in an array, and hold none.
pub found_email-AreTexts : (line : Bytes) → no_zero line ≡ true → AreTexts (found_email line)
unfolding found_email after_subject
found_email-AreTexts line z = elim (Bool-cases (ltb 9 (length (c_str line)))) [
  | inl h ↦ elim (Option-cases (behind (codes "Subject: ") line)) [
    | inl n ↦ rw (h, n) tt
    | inr (email, e) ↦ elim (Bool-cases (check_email email)) [
      | inl c ↦
          let short = check_email-length email c in
          let text : IsText email = record {
            short = omega arith;
            no_zero = behind-no_zero (codes "Subject: ") line z e;
          } in
          rw (h, e) (rw c (text, tt))
      | inr c ↦ rw (h, e) (rw c tt)
    ]
  ]
  | inr h ↦ rw h tt
]
