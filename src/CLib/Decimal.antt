-- ===== src/CLib/Decimal.antt =====
-- `printf("%d")`: the decimal text of an int, which `strtol` reads back.
use advanced_systems_program.Prelude.{
  ℕ, zero, suc, ◌+◌, ◌-◌, ◌*◌, ◌/◌, ◌%◌, ◌^◌, ◌≤◌, ◌<◌, ◌≡◌, ap, ◌∙◌, sym, arith, [], ◌∷◌, ◌++◌,
  true, ◌⊎◌, inl, inr, ltb, if◌then◌else◌, all, length, length-append,
}
use advanced_systems_program.Prelude.Int.{ℤ, pos, negsuc, pos_part, neg_part}
use mathlib.Core.Path.{subst}
use advanced_systems_program.CLib.{Bytes, is_digit, is_space}
use advanced_systems_program.CLib.Strtol.{strtol, skip_spaces, digits_value, at_most, minus}

-- The digits of `n`, on as much fuel as `n` has digits or more.
unfoldable pub digits : ℕ → ℕ → Bytes
digits zero n = []
digits (suc fuel) n =
    let front = digits fuel (n / 10) in
    if ltb n 10 then (b'0' + n) ∷ [] else front ++ (b'0' + n % 10) ∷ []

abbrev pub decimal_ℕ : ℕ → Bytes
decimal_ℕ n = digits (suc n) n

abbrev pub decimal : ℤ → Bytes
decimal (pos n) = decimal_ℕ n
decimal (negsuc n) = b'-' ∷ decimal_ℕ (suc n)

digits_value-append :
    (acc : ℕ) (xs : Bytes) (d : ℕ)
    → all is_digit xs ≡ true
    → d < 10
    → digits_value acc (xs ++ (b'0' + d) ∷ []) ≡ 10 * digits_value acc xs + d
unfolding digits_value is_digit
digits_value-append acc [] d h l = ground arith
digits_value-append acc (x ∷ xs) d h l =
    let i = digits_value-append (10 * acc + (x - b'0')) xs d in ground arith

all-append_one :
    (xs : Bytes) (d : ℕ)
    → all is_digit xs ≡ true
    → d < 10
    → all is_digit (xs ++ (b'0' + d) ∷ []) ≡ true
unfolding is_digit
all-append_one [] d h l = ground arith
all-append_one (x ∷ xs) d h l = let i = all-append_one xs d in ground arith

record IsDecimal (n : ℕ) (xs : Bytes) : Type 0 where
  all_digits : all is_digit xs ≡ true
  value : digits_value 0 xs ≡ n

digits_small : (fuel n : ℕ) → n < 10 → digits (suc fuel) n ≡ (b'0' + n) ∷ []
unfolding digits
digits_small fuel n h = ground arith

digits_large :
    (fuel n : ℕ) → 10 ≤ n → digits (suc fuel) n ≡ digits fuel (n / 10) ++ (b'0' + n % 10) ∷ []
unfolding digits
digits_large fuel n h = ground arith

one-IsDecimal : (n : ℕ) → n < 10 → IsDecimal n ((b'0' + n) ∷ [])
unfolding digits_value is_digit
one-IsDecimal n h = ground arith

append-IsDecimal :
    (n : ℕ) (xs : Bytes) → IsDecimal (n / 10) xs → IsDecimal n (xs ++ (b'0' + n % 10) ∷ [])
append-IsDecimal n xs h = record {
  all_digits = all-append_one xs (n % 10) h.all_digits (omega arith);
  value =
      let v = digits_value-append 0 xs (n % 10) h.all_digits (omega arith) in
      let e = h.value in omega arith;
}

pub less_or : (a b : ℕ) → (a < b) ⊎ (b ≤ a)
less_or a b = ground arith

digits-IsDecimal : (fuel n : ℕ) → n < fuel → IsDecimal n (digits fuel n)
digits-IsDecimal zero n h = ground arith
digits-IsDecimal (suc fuel) n h = elim (less_or n 10) [
  | inl small ↦ subst (IsDecimal n) (sym (digits_small fuel n small)) (one-IsDecimal n small)
  | inr large ↦
      subst (IsDecimal n) (sym (digits_large fuel n large))
        (append-IsDecimal n (digits fuel (n / 10)) (digits-IsDecimal fuel (n / 10) (omega arith)))
]

strtol-digits : (n : ℕ) (xs : Bytes) → IsDecimal n xs → n < 2 ^ 63 → strtol xs ≡ pos n
unfolding strtol skip_spaces digits_value is_digit is_space
strtol-digits n [] h l = let v = h.value in ap pos v
strtol-digits n (x ∷ xs) h l = let v = h.value in let a = h.all_digits in ground arith

at_most_of_le : (b n : ℕ) → n ≤ b → at_most b n ≡ n
at_most_of_le b n h = ground arith

strtol-minus :
    (n : ℕ) (xs : Bytes) → IsDecimal (suc n) xs → n < 2 ^ 63 → strtol (b'-' ∷ xs) ≡ negsuc n
unfolding strtol skip_spaces is_space
strtol-minus n xs h l =
    let v = h.value in
    ap minus (ap (at_most (2 ^ 63)) v ∙ at_most_of_le (2 ^ 63) (suc n) (omega arith))

-- A number below ten times `b` has a digit more than one below `b` may have.
length-step :
    (b k fuel n : ℕ)
    → ((m : ℕ) → m < b → length (digits fuel m) ≤ suc k)
    → n < 10 * b
    → length (digits (suc fuel) n) ≤ suc (suc k)
length-step b k fuel n shorter h = elim (less_or n 10) [
  | inl small ↦ let e = ap length (digits_small fuel n small) in omega arith
  | inr large ↦
      let e = ap length (digits_large fuel n large) in
      let l = length-append (digits fuel (n / 10)) ((b'0' + n % 10) ∷ []) in
      let i = shorter (n / 10) (omega arith) in omega arith
]

length-digits_1 : (fuel n : ℕ) → n < 10 → length (digits fuel n) ≤ 1
unfolding digits
length-digits_1 zero n h = omega arith
length-digits_1 (suc fuel) n h = let e = ap length (digits_small fuel n h) in omega arith

length-digits_2 : (fuel n : ℕ) → n < 100 → length (digits fuel n) ≤ 2
unfolding digits
length-digits_2 zero n h = omega arith
length-digits_2 (suc fuel) n h = length-step 10 0 fuel n (length-digits_1 fuel) h

length-digits_3 : (fuel n : ℕ) → n < 1000 → length (digits fuel n) ≤ 3
unfolding digits
length-digits_3 zero n h = omega arith
length-digits_3 (suc fuel) n h = length-step 100 1 fuel n (length-digits_2 fuel) h

-- A `long` is read back from its text.
pub strtol-decimal : (v : ℤ) → pos_part v < 2 ^ 63 → neg_part v ≤ 2 ^ 63 → strtol (decimal v) ≡ v
strtol-decimal (pos n) h l =
    strtol-digits n (decimal_ℕ n) (digits-IsDecimal (suc n) n (omega arith)) h
strtol-decimal (negsuc n) h l =
    strtol-minus n (decimal_ℕ (suc n)) (digits-IsDecimal (suc (suc n)) (suc n) (omega arith))
      (omega arith)

-- Three characters hold the numbers from -99 to 999.
pub length-decimal : (v : ℤ) → pos_part v < 1000 → neg_part v < 100 → length (decimal v) ≤ 3
length-decimal (pos n) h l = length-digits_3 (suc n) n h
length-decimal (negsuc n) h l = let i = length-digits_2 (suc (suc n)) (suc n) l in omega arith
