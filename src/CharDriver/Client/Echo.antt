-- ===== src/CharDriver/Client/Echo.antt =====
-- What the script prints.
use native.Mathlib.Nat.{zero-add}
use advanced_systems_program.Prelude.{
  ℕ, ◌≤◌, ◌<◌, ◌≡◌, refl, ap, Bool, true, not, some, [], ◌∷◌, ◌++◌, ◌==◌, length, take, all, arith,
}
use advanced_systems_program.Prelude.Int.{pos}
use advanced_systems_program.Prelude.Word.{u64_mod}
use advanced_systems_program.CLib.{Bytes, c_str}
use advanced_systems_program.CharDriver.Device.{File, ret, Kernel, patch}
use advanced_systems_program.CharDriver.Ops.{mycdrv_lseek, new_position}
use advanced_systems_program.CharDriver.Ops.Buffer.{length-patch, take-drop-patch}
use advanced_systems_program.CharDriver.Ops.Laws.{file, read-fits, write-fits}
use advanced_systems_program.CharDriver.Ops.Seek.{lseek-within}
use advanced_systems_program.CharDriver.Client.{
  wrote, seek_failed, has_read, Output, print, say_write, say_seek, say_read, after, ended,
  after_read, seek_start, read_back, finish, run,
}

abbrev pub is_text : Bytes → Bool
is_text s = all (λ c. not (c == 0)) s

c_str-zero : (xs ys : Bytes) → is_text xs ≡ true → c_str (xs ++ 0 ∷ ys) ≡ xs
unfolding c_str
c_str-zero [] ys h = refl
c_str-zero (x ∷ xs) ys h = ground (arith, c_str-zero xs ys)

take-append_self : (xs ys : Bytes) → take (length xs) (xs ++ ys) ≡ xs
take-append_self [] ys = refl
take-append_self (x ∷ xs) ys = ap (◌∷◌ x) (take-append_self xs ys)

c_str-ended : (s buff : Bytes) → is_text s ≡ true → c_str (ended (length s) s buff) ≡ s
unfolding ended patch
c_str-ended s buff h = rw (take-append_self s _) (c_str-zero s _ h)

module _ (k : Kernel) (bs : Bytes) (size block : ℕ) (fits : size ≤ length bs)
    (small : size < u64_mod) (copied : k.uncopied ≡ 0) (some_bytes : 0 < size) where
  to_start :
      (p : ℕ)
      → mycdrv_lseek k (file bs size block p) (pos 0) 0 ≡ (file bs size block 0, ret (pos 0))
  to_start p =
      lseek-within k bs size block p fits (pos 0) 0 0 (unfold new_position in refl) some_bytes

  seek_start-says :
      (rest : File → Output) (p : ℕ)
      → seek_start k rest (file bs size block p) ≡ print seek_failed (rest (file bs size block 0))
  unfolding seek_start after say_seek
  seek_start-says rest p = rw (to_start p) refl

  read_back-says :
      (s buff : Bytes) (rest : Bytes → File → Output)
      → is_text s ≡ true
      → length s ≤ size
      → take (length s) bs ≡ s
      → read_back k (length s) buff rest (file bs size block 0)
        ≡ print
            (has_read (length s) s)
            (rest (ended (length s) s buff) (file bs size block (length s)))
  unfolding read_back after_read say_read
  read_back-says s buff rest text room there =
      rw
        (
          read-fits k bs size block 0 fits small copied (length s) (omega arith),
          zero-add,
          there,
          c_str-ended s buff text,
        )
        refl

module _ (k : Kernel) (bs : Bytes) (size block : ℕ) (fits : size ≤ length bs)
    (small : size < u64_mod) (copied : k.uncopied ≡ 0) (some_bytes : 0 < size) where
  -- On a device that is not empty, with the file at its start, a text without 0 that fits in the
  -- device is written, and both reads print it whole. Both seeks succeed and are reported as failed.
  pub run-echo :
      (s buff : Bytes)
      → is_text s ≡ true
      → length s ≤ size
      → run k (file bs size block 0) s buff
        ≡ some (
          file (patch bs 0 s) size block (length s),
          wrote (length s)
              ∷ seek_failed
              ∷ has_read (length s) s
              ∷ seek_failed
              ∷ has_read (length s) s
              ∷ [],
        )
  unfolding run after say_write print
  run-echo s buff text room =
      let long : length (patch bs 0 s) ≡ length bs = length-patch bs 0 s (omega arith) in
      let fits' : size ≤ length (patch bs 0 s) = omega arith in
      let there : take (length s) (patch bs 0 s) ≡ s = take-drop-patch bs 0 s (omega arith) in
      rw
        (
          write-fits k bs size block 0 fits small copied s (omega arith),
          seek_start-says k (patch bs 0 s) size block fits' small copied some_bytes,
          read_back-says k (patch bs 0 s) size block fits' small copied some_bytes s buff _ text
              room there,
          seek_start-says k (patch bs 0 s) size block fits' small copied some_bytes,
          read_back-says k (patch bs 0 s) size block fits' small copied some_bytes s
              (ended (length s) s buff) finish text room there,
        )
        refl
