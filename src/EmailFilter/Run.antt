-- ===== src/EmailFilter/Run.antt =====
-- The run of the filter over its whole input.
use advanced_systems_program.Prelude.{
  ◌-◌, ◌≡◌, refl, Bool, none, some, List, [], ◌∷◌, map, if◌then◌else◌, length, drop, Bool-cases,
  inl, inr,
}
use advanced_systems_program.CLib.{Bytes, c_str}
use advanced_systems_program.CLib.Lines.{fgets_lines, join}
use advanced_systems_program.CLib.Tokens.{tokens}
use advanced_systems_program.EmailFilter.{filter_line, filter_lines, buffer_size, main}
use advanced_systems_program.EmailFilter.Machine.{five_fields, is_well_formed-five_fields}

-- A line of a mail that carries an event behind its first nine bytes and before its first 0 byte.
abbrev pub is_event : Bytes → Bool
is_event l = five_fields (tokens (drop 9 (c_str l)))

-- What is printed of such a line.
abbrev pub printed : Bytes → Bytes
printed l = c_str (drop 9 l)

unfoldable pub select : (Bytes → Bool) → List Bytes → List Bytes
select p [] = []
select p (l ∷ ls) = if p l then l ∷ select p ls else select p ls

filter_line-is_event : (l : Bytes) → filter_line l ≡ (if is_event l then some (printed l) else none)
unfolding filter_line
filter_line-is_event l = elim (Bool-cases (is_event l)) [
  | inl e ↦ rw (is_well_formed-five_fields (drop 9 (c_str l)), e)
  | inr e ↦ rw (is_well_formed-five_fields (drop 9 (c_str l)), e)
]

filter_lines-select :
    (ls : List Bytes)
    → filter_lines ls ≡ (join (map printed (select is_event ls)), length (select is_event ls))
unfolding filter_lines select
filter_lines-select [] = refl
filter_lines-select (l ∷ ls) = elim (Bool-cases (is_event l)) [
  | inl e ↦ rw (filter_line-is_event l, e, filter_lines-select ls)
  | inr e ↦ rw (filter_line-is_event l, e, filter_lines-select ls)
]

-- `main` prints, in the order of its input, the lines whose text behind the ninth byte and before
-- the first 0 byte is a well-formed event, each without its first nine bytes and up to the first 0
-- byte behind them, and counts them.
pub main-select :
    (stdin : Bytes)
    → let events = select is_event (fgets_lines (buffer_size - 1) stdin) in
      main stdin ≡ (join (map printed events), length events)
unfolding main
main-select stdin = filter_lines-select (fgets_lines (buffer_size - 1) stdin)
