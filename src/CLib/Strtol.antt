-- ===== src/CLib/Strtol.antt =====
-- `strtol(s, nullptr, 10)` of a whole C string, and a `long` stored in an `int`.
use advanced_systems_program.Prelude.{
  ℕ, zero, suc, ◌+◌, ◌-◌, ◌*◌, ◌%◌, ◌^◌, ◌≤◌, ◌<◌, ◌≡◌, arith, [], ◌∷◌, ◌==◌, ltb, if◌then◌else◌,
}
use advanced_systems_program.Prelude.Int.{ℤ, pos, negsuc, pos_part, neg_part}
use advanced_systems_program.CLib.{Bytes, is_digit, is_space}

unfoldable pub skip_spaces : Bytes → Bytes
unfolding is_space
skip_spaces [] = []
skip_spaces (c ∷ cs) = let rest = skip_spaces cs in if is_space c then rest else c ∷ cs

-- The value of the digits up to the first other byte.
unfoldable pub digits_value : ℕ → Bytes → ℕ
unfolding is_digit
digits_value acc [] = acc
digits_value acc (c ∷ cs) =
    let more = digits_value (10 * acc + (c - b'0')) cs in if is_digit c then more else acc

abbrev pub at_most : ℕ → ℕ → ℕ
at_most bound n = if ltb bound n then bound else n

abbrev pub minus : ℕ → ℤ
minus zero = pos 0
minus (suc n) = negsuc n

-- Out of range, the result is `LONG_MAX` or `LONG_MIN`.
abbrev pub signed : Bytes → ℤ
signed [] = pos 0
signed (c ∷ cs) =
    if c == b'-'
    then minus (at_most (2 ^ 63) (digits_value 0 cs))
    else pos (at_most (2 ^ 63 - 1) (digits_value 0 (if c == b'+' then cs else c ∷ cs)))

unfoldable pub strtol : Bytes → ℤ
unfolding skip_spaces digits_value
strtol s = signed (skip_spaces s)

-- A `long` stored in an `int`.
abbrev pub int_of : ℤ → ℤ
int_of (pos n) =
    let low = n % 2 ^ 32 in if ltb low (2 ^ 31) then pos low else negsuc (2 ^ 32 - 1 - low)
int_of (negsuc n) =
    let low = n % 2 ^ 32 in if ltb low (2 ^ 31) then negsuc low else pos (2 ^ 32 - 1 - low)

pub int_of_int : (v : ℤ) → pos_part v < 2 ^ 31 → neg_part v ≤ 2 ^ 31 → int_of v ≡ v
int_of_int (pos n) h l = ground arith
int_of_int (negsuc n) h l = ground arith
