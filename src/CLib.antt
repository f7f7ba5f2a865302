-- ===== src/CLib.antt =====
-- What the programs use of the C library: `strlen`, `strcpy`, `strcmp`, `strtok`, `isdigit` and
-- the two-digit `strtol`. A byte is a number; a C string in an array of fixed size is the bytes
-- up to the first 0.
pub mod Decimal
pub mod Lines
pub mod Search
pub mod Streams
pub mod Strings
pub mod Strtol
pub mod Tokens
use advanced_systems_program.Prelude.{
  ℕ, suc, ◌+◌, ◌-◌, ◌*◌, ◌<◌, Bool, true, false, ◌&&◌, ◌||◌, Option, none, some, List, [], ◌∷◌,
  ◌++◌, ltb, leb, ◌==◌, if◌then◌else◌, str_eq, length, drop,
}
use advanced_systems_program.Prelude.Int.{ℤ, pos, negsuc}

abbrev pub Bytes : Type 0
Bytes = List ℕ

-- The string that an array holds.
unfoldable pub c_str : Bytes → Bytes
c_str [] = []
c_str (c ∷ cs) = if c == 0 then [] else c ∷ c_str cs

-- `strcpy(dst, src)`: an array keeps its size and its bytes behind the copied 0. `none` is a copy
-- that runs over the end of the array.
unfoldable pub strcpy : Bytes → Bytes → Option Bytes
strcpy dst src =
    if ltb (length src) (length dst) then some (src ++ 0 ∷ drop (suc (length src)) dst) else none

-- `!strcmp(a, b)` of two arrays.
unfoldable pub same_str : Bytes → Bytes → Bool
unfolding c_str
same_str a b = str_eq (c_str a) (c_str b)

unfoldable pub is_digit : ℕ → Bool
is_digit c = leb b'0' c && leb c b'9'

-- `isspace` in the C locale, as `strtol` skips it.
unfoldable pub is_space : ℕ → Bool
is_space c = c == 32 || leb 9 c && leb c 13

unfoldable pub digit_or_zero : ℕ → ℕ
unfolding is_digit
digit_or_zero c = if is_digit c then c - b'0' else 0

-- `strtol` in base 10 on the two bytes `a`, `b` and a 0.
unfoldable pub strtol_two : ℕ → ℕ → ℤ
unfolding is_digit is_space digit_or_zero
strtol_two a b =
    if is_digit a
    then pos (if is_digit b then 10 * (a - b'0') + (b - b'0') else a - b'0')
    else if a == b'-' && is_digit b && ltb b'0' b
    then negsuc (b - b'0' - 1)
    else if is_space a || a == b'+'
    then pos (digit_or_zero b)
    else pos 0
