-- ===== src/Updater/Calendar/Order.antt =====
-- The order of the keys, and the entries of a calendar after each change.
use advanced_systems_program.Prelude.{
  ℕ, zero, suc, ◌≡◌, refl, ap, Bool, true, false, not, ◌&&◌, [], ◌∷◌, all, arith, Bool-cases, inl,
  inr,
}
use advanced_systems_program.CLib.{Bytes}
use advanced_systems_program.Updater.Event.{Event}
use advanced_systems_program.Updater.Calendar.{Entry, Calendar, str_ltb, emplace, assign, erase}

pub str_ltb_irrefl : (a : Bytes) → str_ltb a a ≡ false
unfolding str_ltb
str_ltb_irrefl [] = refl
str_ltb_irrefl (x ∷ xs) = ground (arith, str_ltb_irrefl xs)

pub str_ltb_asymm : (a b : Bytes) → str_ltb a b ≡ true → str_ltb b a ≡ false
unfolding str_ltb
str_ltb_asymm [] [] h = refl
str_ltb_asymm [] (y ∷ ys) h = refl
str_ltb_asymm (x ∷ xs) [] h = ground arith
str_ltb_asymm (x ∷ xs) (y ∷ ys) h = ground (arith, str_ltb_asymm xs ys)

-- `a < b ≤ c` gives `a < c`.
pub lt_of_lt_of_le : (a b c : Bytes) → str_ltb a b ≡ true → str_ltb c b ≡ false → str_ltb a c ≡ true
unfolding str_ltb
lt_of_lt_of_le [] [] c h k = ground arith
lt_of_lt_of_le [] (y ∷ ys) [] h k = ground arith
lt_of_lt_of_le [] (y ∷ ys) (z ∷ zs) h k = refl
lt_of_lt_of_le (x ∷ xs) [] c h k = ground arith
lt_of_lt_of_le (x ∷ xs) (y ∷ ys) [] h k = ground arith
lt_of_lt_of_le (x ∷ xs) (y ∷ ys) (z ∷ zs) h k = ground (arith, lt_of_lt_of_le xs ys zs)

abbrev pub not_below : Bytes → Entry → Bool
not_below key y = not (str_ltb y.key key)

-- No key is below an earlier one.
unfoldable pub is_sorted : Calendar → Bool
is_sorted [] = true
is_sorted (x ∷ xs) = all (not_below x.key) xs && is_sorted xs

pub all-emplace :
    (p : Entry → Bool) (key : Bytes) (e : Event) (cal : Calendar)
    → all p (emplace key e cal) ≡ (p (record { key = key; event = e }) && all p cal)
unfolding emplace
all-emplace p key e [] = refl
all-emplace p key e (x ∷ xs) = elim (Bool-cases (str_ltb key x.key)) [
  | inl h ↦ rw h refl
  | inr h ↦ rw h (ground (arith, all-emplace p key e xs))
]

pub all-erase :
    (p : Entry → Bool) (cal : Calendar) (i : ℕ) → all p cal ≡ true → all p (erase cal i) ≡ true
unfolding erase
all-erase p [] i h = refl
all-erase p (x ∷ xs) zero h = ground arith
all-erase p (x ∷ xs) (suc i) h = ground (arith, all-erase p xs i)

all-assign :
    (p : Bytes → Bool) (cal : Calendar) (i : ℕ) (e : Event)
    → all (λ x. p x.key) (assign cal i e) ≡ all (λ x. p x.key) cal
unfolding assign
all-assign p [] i e = refl
all-assign p (x ∷ xs) zero e = refl
all-assign p (x ∷ xs) (suc i) e = ap (λ b. p x.key && b) (all-assign p xs i e)

-- What is not below `x` is above all that `x` is above.
pub above :
    (key k : Bytes) (xs : Calendar)
    → str_ltb key k ≡ true
    → all (not_below k) xs ≡ true
    → all (λ y. str_ltb key y.key) xs ≡ true
above key k [] h a = refl
above key k (y ∷ ys) h a = let lt = lt_of_lt_of_le key k y.key h in ground (arith, above key k ys)

above-not_below :
    (key : Bytes) (xs : Calendar)
    → all (λ y. str_ltb key y.key) xs ≡ true
    → all (not_below key) xs ≡ true
above-not_below key [] h = refl
above-not_below key (y ∷ ys) h = ground (arith, str_ltb_asymm key y.key, above-not_below key ys)

pub emplace-is_sorted :
    (key : Bytes) (e : Event) (cal : Calendar)
    → is_sorted cal ≡ true
    → is_sorted (emplace key e cal) ≡ true
unfolding emplace is_sorted
emplace-is_sorted key e [] h = refl
emplace-is_sorted key e (x ∷ xs) h = elim (Bool-cases (str_ltb key x.key)) [
  | inl lt ↦
      let a = above key x.key xs lt in
      rw lt (ground (arith, above-not_below key xs, str_ltb_asymm key x.key))
  | inr lt ↦
      rw lt (ground (arith, all-emplace (not_below x.key) key e xs, emplace-is_sorted key e xs))
]

pub erase-is_sorted :
    (cal : Calendar) (i : ℕ) → is_sorted cal ≡ true → is_sorted (erase cal i) ≡ true
unfolding erase is_sorted
erase-is_sorted [] i h = refl
erase-is_sorted (x ∷ xs) zero h = ground arith
erase-is_sorted (x ∷ xs) (suc i) h =
    ground (arith, all-erase (not_below x.key) xs i, erase-is_sorted xs i)

pub assign-is_sorted :
    (cal : Calendar) (i : ℕ) (e : Event) → is_sorted (assign cal i e) ≡ is_sorted cal
unfolding assign is_sorted
assign-is_sorted [] i e = refl
assign-is_sorted (x ∷ xs) zero e = refl
assign-is_sorted (x ∷ xs) (suc i) e =
    ground (arith, all-assign (λ k. not (str_ltb k x.key)) xs i e, assign-is_sorted xs i e)
