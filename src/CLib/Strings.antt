-- ===== src/CLib/Strings.antt =====
-- Strings that end at their first 0 byte.
use advanced_systems_program.Prelude.{
  ℕ, zero, suc, ◌≡◌, refl, ap, [], ◌∷◌, ◌==◌, drop, arith, Bool-cases, inl, inr,
}
use advanced_systems_program.CLib.{Bytes, c_str}

pub c_str_idem : (s : Bytes) → c_str (c_str s) ≡ c_str s
unfolding c_str
c_str_idem [] = refl
c_str_idem (c ∷ cs) = elim (Bool-cases (c == 0)) [
  | inl e ↦ rw e refl
  | inr e ↦ rw e (rw e (ap (◌∷◌ c) (c_str_idem cs)))
]

-- A string that is longer than `n` goes on behind its first `n` bytes to the same end.
pub c_str-drop :
    (n : ℕ) (s : Bytes) (c : ℕ) (cs : Bytes)
    → drop n (c_str s) ≡ c ∷ cs
    → c_str (drop n s) ≡ drop n (c_str s)
unfolding c_str
c_str-drop zero s c cs h = refl
c_str-drop (suc n) [] c cs h = refl
c_str-drop (suc n) (d ∷ ds) c cs h = elim (Bool-cases (d == 0)) [
  | inl e ↦ absurd (ground arith)
  | inr e ↦ rw e (c_str-drop n ds c cs (ground arith))
]
