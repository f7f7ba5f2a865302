-- ===== src/CLib/Tokens.antt =====
-- `strtok(s, ",")` and the calls `strtok(NULL, ",")` after it. The position that the library keeps
-- between calls is the rest of the string.
use advanced_systems_program.Prelude.{
  ℕ, ◌≡◌, refl, sym, ap, ◌∙◌, ◌⊎◌, inl, inr, false, Option, none, some, List, [], ◌∷◌, ◌==◌,
  if◌then◌else◌, Bool-cases,
}

abbrev comma : ℕ
comma = b','

-- The commas in front of a token are skipped.
unfoldable pub skip_commas : List ℕ → List ℕ
skip_commas [] = []
skip_commas (c ∷ cs) = if c == comma then skip_commas cs else c ∷ cs

-- The bytes up to the next comma, and those behind it. The comma is overwritten by 0.
unfoldable pub break_comma : List ℕ → List ℕ × List ℕ
break_comma [] = ([], [])
break_comma (c ∷ cs) =
    let (tok, rest) = break_comma cs in if c == comma then ([], cs) else (c ∷ tok, rest)

unfoldable pub token_of : List ℕ → Option (List ℕ × List ℕ)
unfolding break_comma
token_of [] = none
token_of (c ∷ cs) = some (break_comma (c ∷ cs))

-- `none` is NULL.
unfoldable pub strtok : List ℕ → Option (List ℕ × List ℕ)
unfolding skip_commas token_of
strtok s = token_of (skip_commas s)

abbrev push : ℕ → List (List ℕ) → List (List ℕ)
push c [] = (c ∷ []) ∷ []
push c (t ∷ ts) = (c ∷ t) ∷ ts

-- The text between commas, empty pieces included.
unfoldable pub split_commas : List ℕ → List (List ℕ)
split_commas [] = [] ∷ []
split_commas (c ∷ cs) = if c == comma then [] ∷ split_commas cs else push c (split_commas cs)

unfoldable pub non_empty : List (List ℕ) → List (List ℕ)
non_empty [] = []
non_empty ([] ∷ ts) = non_empty ts
non_empty ((c ∷ cs) ∷ ts) = (c ∷ cs) ∷ non_empty ts

-- The tokens of a string, said without `strtok`: its non-empty pieces.
unfoldable pub tokens : List ℕ → List (List ℕ)
unfolding split_commas non_empty
tokens s = non_empty (split_commas s)

tokens-skip_commas : (s : List ℕ) → tokens (skip_commas s) ≡ tokens s
unfolding skip_commas tokens
tokens-skip_commas [] = refl
tokens-skip_commas (c ∷ cs) = elim (Bool-cases (c == comma)) [
  | inl e ↦ rw e (tokens-skip_commas cs)
  | inr e ↦ ap (λ b. non_empty (split_commas (if b then skip_commas cs else c ∷ cs))) e
]

-- The pieces behind the first.
rest_pieces : List ℕ → List (List ℕ)
rest_pieces [] = []
rest_pieces (c ∷ cs) = if c == comma then split_commas cs else rest_pieces cs

split-eq-break : (s : List ℕ) → split_commas s ≡ (break_comma s).0 ∷ rest_pieces s
unfolding split_commas break_comma rest_pieces
split-eq-break [] = refl
split-eq-break (c ∷ cs) = elim (Bool-cases (c == comma)) [
  | inl e ↦ rw e
  | inr e ↦ rw (e, split-eq-break cs)
]

rest_pieces-tokens : (s : List ℕ) → non_empty (rest_pieces s) ≡ tokens (break_comma s).1
unfolding break_comma rest_pieces tokens
rest_pieces-tokens [] = refl
rest_pieces-tokens (c ∷ cs) = elim (Bool-cases (c == comma)) [
  | inl e ↦ rw e
  | inr e ↦ rw e (rest_pieces-tokens cs)
]

tokens-eq-break : (s : List ℕ) → tokens s ≡ non_empty ((break_comma s).0 ∷ rest_pieces s)
unfolding tokens
tokens-eq-break s = rw (split-eq-break s)

skip_commas-head :
    (s : List ℕ)
    → (skip_commas s ≡ [])
      ⊎ ((c : ℕ) × (cs : List ℕ) × (skip_commas s ≡ c ∷ cs) × ((c == comma) ≡ false))
unfolding skip_commas
skip_commas-head [] = inl refl
skip_commas-head (c ∷ cs) = elim (Bool-cases (c == comma)) [
  | inl e ↦ rw e (skip_commas-head cs)
  | inr e ↦ rw e (inr (c, cs, refl, e))
]

-- What one call of `strtok` does to the tokens of the string.
pub data Splits (s : List ℕ) : Option (List ℕ × List ℕ) → Type 0 where
  at_end : tokens s ≡ [] → Splits s none
  token : {t rest : List ℕ} → tokens s ≡ t ∷ tokens rest → Splits s (some (t, rest))

tokens-cons :
    (c : ℕ) (cs : List ℕ)
    → (c == comma) ≡ false
    → tokens (c ∷ cs) ≡ (break_comma (c ∷ cs)).0 ∷ tokens (break_comma (c ∷ cs)).1
unfolding break_comma tokens rest_pieces
tokens-cons c cs e =
    rw (tokens-eq-break (c ∷ cs)) (rw e (ap (◌∷◌ (c ∷ (break_comma cs).0)) (rest_pieces-tokens cs)))

-- A call of `strtok` gives NULL if the string has no token, and else its first token, and a rest
-- that has the others.
pub strtok-Splits : (s : List ℕ) → Splits s (strtok s)
unfolding strtok
strtok-Splits s = elim (skip_commas-head s) [
  | inl e ↦ rw e (at_end (sym (tokens-skip_commas s) ∙ rw e (unfold tokens in refl)))
  | inr (c, cs, e, f) ↦ rw e (token (sym (tokens-skip_commas s) ∙ rw e (tokens-cons c cs f)))
]
