-- ===== src/CLib/Lines.antt =====
-- Reading a stream line by line with `fgets(line, size, stdin)`: at most `size - 1` bytes, up to
-- and including a newline.
use advanced_systems_program.Prelude.{
  ℕ, ◌-◌, ◌≡◌, refl, ap, ◌∙◌, List, [], ◌∷◌, ◌++◌, ◌==◌, ◌||◌, if◌then◌else◌, Bool-cases, inl, inr,
}
use mathlib.Core.List.{append_assoc}

abbrev pub newline : ℕ
newline = b'\n'

-- `cur` holds the bytes of the line so far, `room` how many more fit.
unfoldable pub lines_from : (size room : ℕ) → List ℕ → List ℕ → List (List ℕ)
lines_from size room [] [] = []
lines_from size room (x ∷ cur) [] = (x ∷ cur) ∷ []
lines_from size room cur (c ∷ cs) =
    let full = (cur ++ c ∷ []) ∷ lines_from size size [] cs in
    let more = lines_from size (room - 1) (cur ++ c ∷ []) cs in
    if c == newline || room == 1 then full else more

-- The lines that a `while (fgets(line, size + 1, stdin))` sees.
unfoldable pub fgets_lines : ℕ → List ℕ → List (List ℕ)
unfolding lines_from
fgets_lines size input = lines_from size size [] input

abbrev pub join : List (List ℕ) → List ℕ
join [] = []
join (l ∷ ls) = l ++ join ls

join-lines_from : (size room : ℕ) (cur cs : List ℕ) → join (lines_from size room cur cs) ≡ cur ++ cs
unfolding lines_from
join-lines_from size room [] [] = refl
join-lines_from size room (x ∷ cur) [] = refl
join-lines_from size room [] (c ∷ cs) = elim (Bool-cases (c == newline || room == 1)) [
  | inl e ↦ rw e (ap (◌∷◌ c) (join-lines_from size size [] cs))
  | inr e ↦ rw e (join-lines_from size (room - 1) (c ∷ []) cs)
]
join-lines_from size room (x ∷ cur) (c ∷ cs) = elim (Bool-cases (c == newline || room == 1)) [
  | inl e ↦ rw e (rw (join-lines_from size size [] cs) (append_assoc (x ∷ cur) (c ∷ []) cs))
  | inr e ↦ rw e (
      join-lines_from size (room - 1) ((x ∷ cur) ++ c ∷ []) cs ∙ append_assoc (x ∷ cur) (c ∷ []) cs)
]

-- No byte of the input is lost or added.
pub join-fgets_lines : (size : ℕ) (input : List ℕ) → join (fgets_lines size input) ≡ input
unfolding fgets_lines
join-fgets_lines size input = join-lines_from size size [] input
