-- ===== src/SharedUpdater/Refinement.antt =====
-- The ring and a queue give the same emails.
use advanced_systems_program.Prelude.{
  ℕ, ◌<◌, ◌≡◌, refl, ap, ◌∙◌, true, false, Option, none, some, List, [], ◌∷◌, ◌++◌, ◌==◌, ltb,
  if◌then◌else◌, length, arith, Bool-cases, inl, inr, ◌>>=◌,
}
use advanced_systems_program.CLib.{Bytes}
use advanced_systems_program.SharedUpdater.{Ring, empty_ring, Op, add, remove, run_ring}
use advanced_systems_program.SharedUpdater.Queue.{
  Represents, IsText, write-Represents, read-Represents,
}

-- The same operations on a queue of at most `n` emails.
unfoldable pub run_queue : ℕ → List Op → List Bytes → Option (List Bytes)
run_queue n [] q = some []
run_queue n (add email ∷ ops) q =
    let more = run_queue n ops (q ++ email ∷ []) in if ltb (length q) n then more else none
run_queue n (remove ∷ ops) [] = none
run_queue n (remove ∷ ops) (email ∷ q) = run_queue n ops q >>= λ out. some (email ∷ out)

abbrev pub AreTexts : List Bytes → Type 0
AreTexts [] = Unit
AreTexts (email ∷ q) = IsText email × AreTexts q

abbrev pub AreAdded : List Op → Type 0
AreAdded [] = Unit
AreAdded (add email ∷ ops) = IsText email × AreAdded ops
AreAdded (remove ∷ ops) = AreAdded ops

pub append-AreTexts :
    (q : List Bytes) (email : Bytes) → AreTexts q → IsText email → AreTexts (q ++ email ∷ [])
append-AreTexts [] email ts t = (t, ts)
append-AreTexts (e ∷ q) email (t', ts) t = (t', append-AreTexts q email ts t)

run_ring-run_queue :
    (n : ℕ) (ops : List Op) (q : List Bytes) (r : Ring)
    → AreAdded ops
    → AreTexts q
    → Represents n q r
    → run_ring n ops r ≡ run_queue n ops q
unfolding run_ring run_queue
run_ring-run_queue n [] q r a ts rep = refl
run_ring-run_queue n (add email ∷ ops) q r (a, more) ts rep = elim (Bool-cases (ltb (length q) n)) [
  | inl lt ↦
      let (s, w, rep') = write-Represents n q email r rep a (ground arith) in
      let count : ltb r.email_count n ≡ true = ap (λ k. ltb k n) rep.size ∙ lt in
      rw (lt, count)
        (rw w
          (run_ring-run_queue n ops (q ++ email ∷ []) s more (append-AreTexts q email ts a) rep'))
  | inr le ↦
      let count : ltb r.email_count n ≡ false = ap (λ k. ltb k n) rep.size ∙ le in
      rw (le, count) refl
]
run_ring-run_queue n (remove ∷ ops) [] r more ts rep =
    let count : (r.email_count == 0) ≡ true = ap (λ k. k == 0) rep.size in rw count refl
run_ring-run_queue n (remove ∷ ops) (email ∷ q) r more (t, ts) rep =
    let (s, returns, rep') = read-Represents n email q r rep t in
    let size = rep.size in
    let count : (r.email_count == 0) ≡ false = ground arith in
    rw count (rw (returns, run_ring-run_queue n ops q s more ts rep') refl)

pub empty-Represents : (n : ℕ) → 0 < n → Represents n [] empty_ring
empty-Represents n h = record {
  size = refl;
  fits = omega arith;
  read_in = h;
  write_at = ground arith;
  held = λ k lt. refl;
}

-- Emails without a 0 byte and shorter than an array, added while there is room and removed while
-- there are some, come out of the ring as out of a queue, for any sequence of the two; with no room,
-- or none to remove, both stop.
pub ring-queue :
    (n : ℕ) (ops : List Op) → 0 < n → AreAdded ops → run_ring n ops empty_ring ≡ run_queue n ops []
ring-queue n ops h more = run_ring-run_queue n ops [] empty_ring more tt (empty-Represents n h)
