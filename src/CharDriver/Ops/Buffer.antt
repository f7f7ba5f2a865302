-- ===== src/CharDriver/Ops/Buffer.antt =====
-- The copying of buffers: the loop of `mycdrv_lseek`, and writes into the middle of a buffer.
use advanced_systems_program.Prelude.{
  ℕ, zero, suc, ◌+◌, ◌≤◌, ◌≡◌, refl, ap, ◌∙◌, some, [], ◌∷◌, ◌++◌, length, length-append,
  length-drop, length-take_of_le, get_elem?, set, take, drop, arith,
}
use mathlib.Core.List.{append_assoc}
use advanced_systems_program.CLib.{Bytes}
use advanced_systems_program.CharDriver.Device.{zeros, patch}
use advanced_systems_program.CharDriver.Ops.{store_byte, copy_loop, copy_buffer, allocated}

get_elem?-middle :
    (done : Bytes) (b : ℕ) (xs : Bytes) → get_elem? (done ++ b ∷ xs) (length done) ≡ some b
get_elem?-middle [] b xs = refl
get_elem?-middle (x ∷ done) b xs = get_elem?-middle done b xs

set-middle :
    (done : Bytes) (b c : ℕ) (xs : Bytes) → set (done ++ c ∷ xs) (length done) b ≡ done ++ b ∷ xs
set-middle [] b c xs = refl
set-middle (x ∷ done) b c xs = ap (◌∷◌ x) (set-middle done b c xs)

store_byte-middle :
    (done : Bytes) (b c : ℕ) (xs : Bytes)
    → store_byte (done ++ c ∷ xs) (length done) (some b) ≡ some (done ++ b ∷ xs)
unfolding store_byte
store_byte-middle done b c xs = ground (arith, length-append done (c ∷ xs), set-middle done b c xs)

copy_loop-suc :
    (k n : ℕ) (temp target : Bytes)
    → copy_loop (suc k) n temp (some target)
      ≡ copy_loop k (suc n) temp (store_byte target n (get_elem? temp n))
unfolding copy_loop
copy_loop-suc k n temp target = refl

copy_loop-zero : (n : ℕ) (temp target : Bytes) → copy_loop 0 n temp (some target) ≡ some target
unfolding copy_loop
copy_loop-zero n temp target = refl

-- With `done` copied, the loop copies `k` more bytes.
copy_loop-done :
    (k : ℕ) (done src dst : Bytes)
    → k ≤ length src
    → k ≤ length dst
    → copy_loop k (length done) (done ++ src) (some (done ++ dst))
      ≡ some (done ++ (take k src ++ drop k dst))
copy_loop-done zero done src dst hs hd = copy_loop-zero (length done) (done ++ src) (done ++ dst)
copy_loop-done (suc k) done [] dst hs hd = absurd (omega arith)
copy_loop-done (suc k) done (b ∷ src) [] hs hd = absurd (omega arith)
copy_loop-done (suc k) done (b ∷ src) (c ∷ dst) hs hd =
    rw (copy_loop-suc, get_elem?-middle done b src, store_byte-middle done b c dst)
      (shifted (copy_loop-done k (done ++ b ∷ []) src dst (omega arith) (omega arith)))
  where
    shifted :
        copy_loop k
            (length (done ++ b ∷ []))
            ((done ++ b ∷ []) ++ src)
            (some ((done ++ b ∷ []) ++ dst))
          ≡ some ((done ++ b ∷ []) ++ (take k src ++ drop k dst))
        → copy_loop k (suc (length done)) (done ++ b ∷ src) (some (done ++ b ∷ dst))
          ≡ some (done ++ b ∷ (take k src ++ drop k dst))
    shifted h =
        rw
          (
            ← append_assoc done (b ∷ []) src,
            ← append_assoc done (b ∷ []) dst,
            ← append_assoc done (b ∷ []) (take k src ++ drop k dst),
            ← next,
          )
          h
      where
        next : length (done ++ b ∷ []) ≡ suc (length done)
        next = omega (arith, length-append done (b ∷ []))

-- The loop copies the first `size` bytes and leaves the rest of its target.
pub copy_buffer-copies :
    (size : ℕ) (old new : Bytes)
    → size ≤ length old
    → size ≤ length new
    → copy_buffer size (some old) (some new) ≡ some (some (take size old ++ drop size new))
unfolding copy_buffer
copy_buffer-copies zero old new ho hn = refl
copy_buffer-copies (suc k) old new ho hn = ap allocated (copy_loop-done (suc k) [] old new ho hn)

pub drop-zeros : (n m : ℕ) → drop n (zeros (n + m)) ≡ zeros m
unfolding zeros
drop-zeros zero m = ap zeros (start m)
  where
    start : (m : ℕ) → 0 + m ≡ m
    start m = omega arith
drop-zeros (suc n) m = ap (λ k. drop (suc n) (zeros k)) (step n m) ∙ drop-zeros n m
  where
    step : (n m : ℕ) → suc n + m ≡ suc (n + m)
    step n m = omega arith

pub length-patch :
    (bs : Bytes) (p : ℕ) (xs : Bytes)
    → p + length xs ≤ length bs
    → length (patch bs p xs) ≡ length bs
unfolding patch
length-patch bs p xs h = omega (
  arith,
  length-append (take p bs) (xs ++ drop (p + length xs) bs),
  length-append xs (drop (p + length xs) bs),
  length-take_of_le p bs (omega arith),
  length-drop (p + length xs) bs,
)

drop-append_length : (xs ys : Bytes) (n : ℕ) → length xs ≡ n → drop n (xs ++ ys) ≡ ys
drop-append_length [] ys zero h = refl
drop-append_length [] ys (suc n) h = absurd (omega arith)
drop-append_length (x ∷ xs) ys zero h = absurd (omega arith)
drop-append_length (x ∷ xs) ys (suc n) h = drop-append_length xs ys n (omega arith)

take-append_length : (xs ys : Bytes) (n : ℕ) → length xs ≡ n → take n (xs ++ ys) ≡ xs
take-append_length [] ys zero h = refl
take-append_length [] ys (suc n) h = absurd (omega arith)
take-append_length (x ∷ xs) ys zero h = absurd (omega arith)
take-append_length (x ∷ xs) ys (suc n) h = ap (◌∷◌ x) (take-append_length xs ys n (omega arith))

-- What was written at `p` is read back there.
pub take-drop-patch :
    (bs : Bytes) (p : ℕ) (xs : Bytes)
    → p ≤ length bs
    → take (length xs) (drop p (patch bs p xs)) ≡ xs
unfolding patch
take-drop-patch bs p xs h =
    rw (drop-append_length (take p bs) (xs ++ drop (p + length xs) bs) p (length-take_of_le p bs h))
      (take-append_length xs (drop (p + length xs) bs) (length xs) refl)
