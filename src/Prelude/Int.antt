-- ===== src/Prelude/Int.antt =====
-- Signed integers over the native numbers, with the order and sum that the program uses.
use Prim.Native.Nat.{ℕ, zero, suc, ◌+◌, ◌-◌, compare, Ordering}
use mathlib.Core.Bool.{Bool, true, false}
use mathlib.Core.Path.{◌≡◌, refl}
use native.Mathlib.Omega.{arith}

-- `negsuc n` is -(n + 1).
pub data ℤ : Type 0 where
  pos : ℕ → ℤ
  negsuc : ℕ → ℤ

abbrev pub pos_part : ℤ → ℕ
pos_part (pos n) = n
pos_part (negsuc n) = 0

abbrev pub neg_part : ℤ → ℕ
neg_part (pos n) = 0
neg_part (negsuc n) = suc n

abbrev pub ltb_ℤ : ℤ → ℤ → Bool
ltb_ℤ a b = elim (compare (pos_part a + neg_part b) (pos_part b + neg_part a)) [
  | Ordering.lt ↦ true
  | _ ↦ false
]

-- The test `!v` of a C int.
abbrev pub is_zero : ℤ → Bool
is_zero (pos zero) = true
is_zero (pos (suc n)) = false
is_zero (negsuc n) = false

pub eq_of_is_zero : (v : ℤ) → is_zero v ≡ true → v ≡ pos 0
eq_of_is_zero (pos zero) h = refl
eq_of_is_zero (pos (suc n)) h = ground arith
eq_of_is_zero (negsuc n) h = ground arith

-- `n + a` for a number `n`.
abbrev pub add_ℕ : ℕ → ℤ → ℤ
add_ℕ n (pos m) = pos (n + m)
add_ℕ n (negsuc m) = elim (compare m n) [ Ordering.lt ↦ pos (n - suc m) | _ ↦ negsuc (m - n) ]
