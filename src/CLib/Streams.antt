-- ===== src/CLib/Streams.antt =====
-- `getline(is, part, delim)` on a string stream, and the loop `while (getline(is, part, delim))`.
use advanced_systems_program.Prelude.{
  ℕ, zero, suc, ◌≤◌, ◌<◌, ◌≡◌, refl, sym, ap, ◌∙◌, Bool, true, false, Option, none, some, List, [],
  ◌∷◌, ◌==◌, if◌then◌else◌, length, arith, Bool-cases, inl, inr,
}

-- The bytes that are left; `none` once the end was met.
abbrev pub Stream : Type 0
Stream = Option (List ℕ)

-- The bytes before the delimiter, and those behind it if it is there.
unfoldable pub up_to : ℕ → List ℕ → List ℕ × Stream
up_to d [] = ([], none)
up_to d (c ∷ cs) = let (t, rest) = up_to d cs in if c == d then ([], some cs) else (c ∷ t, rest)

-- Whether the stream is still good, `part`, and the stream.
pub record Got : Type 0 where
  pub ok : Bool
  pub part : List ℕ
  pub rest : Stream

-- With no delimiter the end is met; without any byte the call then fails.
unfoldable pub taken : List ℕ × Stream → Got
taken (t, some rest) = record { ok = true; part = t; rest = some rest }
taken ([], none) = record { ok = false; part = []; rest = none }
taken (c ∷ t, none) = record { ok = true; part = c ∷ t; rest = none }

-- On a stream that met its end the call fails and leaves `part` as it was.
unfoldable pub get_line : ℕ → List ℕ → Stream → Got
unfolding up_to taken
get_line d part none = record { ok = false; part = part; rest = none }
get_line d part (some s) = taken (up_to d s)

-- The parts that the loop sees, on fuel.
unfoldable pub get_lines : ℕ → ℕ → List ℕ → Stream → List (List ℕ)
get_lines zero d part s = []
get_lines (suc f) d part s =
    let g = get_line d part s in
    let more = get_lines f d g.part g.rest in if g.ok then g.part ∷ more else []

-- Each round takes a byte or meets the end.
unfoldable pub all_lines : ℕ → List ℕ → List (List ℕ)
unfolding get_lines get_line
all_lines d s = get_lines (suc (suc (length s))) d [] (some s)

abbrev pub push : ℕ → List (List ℕ) → List (List ℕ)
push c [] = (c ∷ []) ∷ []
push c (t ∷ ts) = (c ∷ t) ∷ ts

-- The parts of a text, said without streams: each delimiter ends a part, and so does the end of the
-- text if bytes stand before it.
unfoldable pub parts : ℕ → List ℕ → List (List ℕ)
parts d [] = []
parts d (c ∷ cs) = if c == d then [] ∷ parts d cs else push c (parts d cs)

-- What one call makes of the parts.
pub data Splits (d : ℕ) (s : List ℕ) : Got → Type 0 where
  nothing : parts d s ≡ [] → Splits d s (record { ok = false; part = []; rest = none })
  last :
      {t : List ℕ} → parts d s ≡ t ∷ [] → Splits d s (record { ok = true; part = t; rest = none })
  inner :
      {t r : List ℕ}
      → parts d s ≡ t ∷ parts d r
      → length r < length s
      → Splits d s (record { ok = true; part = t; rest = some r })

Splits-cons :
    (d c : ℕ) (cs : List ℕ)
    → (c == d) ≡ false
    → (o : List ℕ × Stream) → Splits d cs (taken o)
    → Splits d (c ∷ cs) (taken (c ∷ o.0, o.1))
unfolding taken parts
Splits-cons d c cs e (t, some rest) (inner h lt) = inner (rw (e, h) refl) (omega arith)
Splits-cons d c cs e ([], none) (nothing h) = last (rw (e, h) refl)
Splits-cons d c cs e (x ∷ t, none) (last h) = last (rw (e, h) refl)

-- A call on a stream that has not met its end.
pub get_line-Splits : (d : ℕ) (old s : List ℕ) → Splits d s (get_line d old (some s))
unfolding get_line parts
get_line-Splits d old [] = nothing refl
get_line-Splits d old (c ∷ cs) = elim (Bool-cases (c == d)) [
  | inl e ↦ rw e (inner (rw e refl) (omega arith))
  | inr e ↦ rw e (Splits-cons d c cs e (up_to d cs) (get_line-Splits d old cs))
]

get_lines-none : (f d : ℕ) (part : List ℕ) → get_lines f d part none ≡ []
unfolding get_lines get_line
get_lines-none zero d part = refl
get_lines-none (suc f) d part = refl

one_round :
    (f d : ℕ) (s : List ℕ)
    → ((old r : List ℕ) → length r < f → get_lines f d old (some r) ≡ parts d r)
    → length s ≤ f
    → {g : Got} → Splits d s g
    → (if g.ok then g.part ∷ get_lines f d g.part g.rest else []) ≡ parts d s
one_round f d s ih h (nothing e) = sym e
one_round f d s ih h (last {t} e) = ap (◌∷◌ t) (get_lines-none f d t) ∙ sym e
one_round f d s ih h (inner {t} {r} e lt) = ap (◌∷◌ t) (ih t r (omega arith)) ∙ sym e

get_lines-parts : (f d : ℕ) (old s : List ℕ) → length s < f → get_lines f d old (some s) ≡ parts d s
unfolding get_lines
get_lines-parts zero d old s h = absurd (omega arith)
get_lines-parts (suc f) d old s h =
    one_round f d s (λ old' r lt. get_lines-parts f d old' r lt) (omega arith)
      (get_line-Splits d old s)

-- The loop sees the parts of the text.
pub all_lines-parts : (d : ℕ) (s : List ℕ) → all_lines d s ≡ parts d s
unfolding all_lines
all_lines-parts d s = get_lines-parts (suc (suc (length s))) d [] s (omega arith)
