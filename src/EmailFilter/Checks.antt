-- ===== src/EmailFilter/Checks.antt =====
-- What the checks of single fields accept.
use Prim.Native.Nat.add
use native.Mathlib.Nat.{add-zero, zero-add}
use advanced_systems_program.Prelude.{
  ℕ, suc, ◌+◌, ◌-◌, ◌<◌, ◌≡◌, ◌≢◌, refl, ◌⊎◌, inl, inr, Bool, true, false, not, some, [], ◌∷◌, ◌++◌,
  ◌==◌, length, get_or, arith, zero, ◌↔◌, Bool-cases, all, length-append, all-get_or,
}
use advanced_systems_program.Prelude.Int.{pos}
use advanced_systems_program.CLib.{Bytes, is_digit}
use advanced_systems_program.EmailFilter.{
  digits_outside, check_date, date_sep, check_time, time_sep, check_title_location_length,
}

shift : (i k : ℕ) → i + suc k ≡ i + 1 + k
shift i k = omega arith

digit_first :
    (sep : ℕ → Bool) (i c : ℕ) (cs : Bytes)
    → (sep (i + 0) ≡ false → is_digit c ≡ true)
    → digits_outside sep (i + 1) cs ≡ true
    → digits_outside sep i (c ∷ cs) ≡ true
unfolding digits_outside
digit_first sep i c cs h later = elim (Bool-cases (sep i)) [
  | inl e ↦ rw e later
  | inr e ↦ rw (e, h (rw (add-zero i) e)) later
]

abbrev pub not_newline : ℕ → Bool
not_newline c = not (c == b'\n')

digits_outside-get :
    (sep : ℕ → Bool) (i : ℕ) (cs : Bytes) (k : ℕ)
    → digits_outside sep i cs ≡ true
    → k < length cs
    → sep (i + k) ≡ false
    → is_digit (get_or cs k 0) ≡ true
unfolding digits_outside
digits_outside-get sep i [] k h lt out = absurd (omega arith)
digits_outside-get sep i (c ∷ cs) zero h lt out =
    let e : sep i ≡ false = rw (← add-zero i) out in ground arith
digits_outside-get sep i (c ∷ cs) (suc k) h lt out =
    let e : sep (i + 1 + k) ≡ false = rw (← shift i k) out in
    ground (arith, digits_outside-get sep (i + 1) cs k)

digits_outside_of_all :
    (sep : ℕ → Bool) (i : ℕ) (cs : Bytes)
    → ((k : ℕ) → k < length cs → sep (i + k) ≡ false → is_digit (get_or cs k 0) ≡ true)
    → digits_outside sep i cs ≡ true
unfolding digits_outside
digits_outside_of_all sep i [] h = refl
digits_outside_of_all sep i (c ∷ cs) h =
    digit_first sep i c cs (h 0 (omega arith))
      (digits_outside_of_all sep (i + 1) cs λ k lt e. h (suc k) (omega arith) (rw (shift i k) e))

date_outside :
    (s : Bytes)
    → (digits_outside date_sep 0 s ≡ true)
      ↔ ((k : ℕ) → k < length s → k ≢ 2 → k ≢ 5 → is_digit (get_or s k 0) ≡ true)
date_outside s = (
  λ h k lt ne2 ne5. digits_outside-get date_sep 0 s k h lt (ground arith),
  λ h. digits_outside_of_all date_sep 0 s λ k lt e. h k lt (ground arith) (ground arith),
)

check_date-parts :
    (s : Bytes)
    → (check_date (some s) ≡ pos 0) ↔ (
        (length s ≡ 10)
        × ((get_or s 2 0 ≡ b'/') ⊎ (get_or s 5 0 ≡ b'/'))
        × (digits_outside date_sep 0 s ≡ true))
unfolding check_date
check_date-parts s = (λ h. (ground arith, ground arith, ground arith), λ h. ground arith)

-- `checkDate` accepts a string exactly if it has ten bytes, the third or the sixth is a slash, and
-- the eight others are digits.
pub check_date-zero_iff :
    (s : Bytes)
    → (check_date (some s) ≡ pos 0) ↔ (
        (length s ≡ 10)
        × ((get_or s 2 0 ≡ b'/') ⊎ (get_or s 5 0 ≡ b'/'))
        × ((k : ℕ) → k < 10 → k ≢ 2 → k ≢ 5 → is_digit (get_or s k 0) ≡ true))
check_date-zero_iff s = (
  λ h. let p = (check_date-parts s).0 h in (p.0, p.1, λ k lt. (date_outside s).0 p.2 k (rw p.0 lt)),
  λ (len, slash, digits).
      (check_date-parts s).1 (len, slash, (date_outside s).1 λ k lt. digits k (rw (← len) lt)),
)

time_outside :
    (s : Bytes)
    → (digits_outside time_sep 0 s ≡ true)
      ↔ ((k : ℕ) → k < length s → k ≢ 2 → is_digit (get_or s k 0) ≡ true)
time_outside s = (
  λ h k lt ne2. digits_outside-get time_sep 0 s k h lt (ground arith),
  λ h. digits_outside_of_all time_sep 0 s λ k lt e. h k lt (ground arith),
)

check_time-parts :
    (s : Bytes)
    → (check_time (some s) ≡ pos 0)
      ↔ ((length s ≡ 5) × (get_or s 2 0 ≡ b':') × (digits_outside time_sep 0 s ≡ true))
unfolding check_time
check_time-parts s = (λ h. (ground arith, ground arith, ground arith), λ h. ground arith)

-- `checkTime` accepts a string exactly if it is two digits, a colon and two digits.
pub check_time-zero_iff :
    (s : Bytes)
    → (check_time (some s) ≡ pos 0) ↔ (
        (length s ≡ 5)
        × (get_or s 2 0 ≡ b':')
        × ((k : ℕ) → k < 5 → k ≢ 2 → is_digit (get_or s k 0) ≡ true))
check_time-zero_iff s = (
  λ h. let p = (check_time-parts s).0 h in (p.0, p.1, λ k lt. (time_outside s).0 p.2 k (rw p.0 lt)),
  λ (len, colon, digits).
      (check_time-parts s).1 (len, colon, (time_outside s).1 λ k lt. digits k (rw (← len) lt)),
)

-- A title or location token in the middle of a line, which holds no newline, is accepted exactly
-- if it has ten bytes.
pub check_title-zero_iff :
    (s : Bytes)
    → all not_newline s ≡ true
    → (check_title_location_length (some s) ≡ pos 0) ↔ (length s ≡ 10)
unfolding check_title_location_length
check_title-zero_iff s h = (
  λ e. ground (
    arith,
    all-get_or not_newline s (length s - 1) 0 h,
    all-get_or not_newline s (length s - 2) 0 h,
  ),
  λ e. ground arith,
)

get_or-append : (xs ys : Bytes) (k : ℕ) → get_or (xs ++ ys) (length xs + k) 0 ≡ get_or ys k 0
get_or-append [] ys k = rw (zero-add k)
get_or-append (x ∷ xs) ys k = rw (add.suc (length xs) k) (get_or-append xs ys k)

-- Behind a location of ten bytes, a newline and the pair newline, return are accepted, and the pair
-- return, newline, with which a line of a mail ends, is refused.
pub location_line_ends :
    (loc : Bytes)
    → length loc ≡ 10
    → (check_title_location_length (some (loc ++ b'\n' ∷ [])) ≡ pos 0)
      × (check_title_location_length (some (loc ++ b'\n' ∷ b'\r' ∷ [])) ≡ pos 0)
      × (check_title_location_length (some (loc ++ b'\r' ∷ b'\n' ∷ [])) ≡ pos 1)
unfolding check_title_location_length
location_line_ends loc h = (
  ground (arith, length-append loc (b'\n' ∷ []), at (b'\n' ∷ []) 0),
  ground (
    arith,
    length-append loc (b'\n' ∷ b'\r' ∷ []),
    at (b'\n' ∷ b'\r' ∷ []) 0,
    at (b'\n' ∷ b'\r' ∷ []) 1,
  ),
  ground (
    arith,
    length-append loc (b'\r' ∷ b'\n' ∷ []),
    at (b'\r' ∷ b'\n' ∷ []) 0,
    at (b'\r' ∷ b'\n' ∷ []) 1,
  ),
)
  where
    at : (ys : Bytes) (k : ℕ) → get_or (loc ++ ys) (length loc + k) 0 ≡ get_or ys k 0
    at ys k = get_or-append loc ys k
