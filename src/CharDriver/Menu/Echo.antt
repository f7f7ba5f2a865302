-- ===== src/CharDriver/Menu/Echo.antt =====
-- A text that one run of the program writes, and the next one reads.
use mathlib.Core.List.{append-nil}
use native.Mathlib.Nat.{zero-add}
use advanced_systems_program.Prelude.{
  ℕ, zero, suc, ◌≤◌, ◌<◌, ◌≡◌, refl, ap, ◌∙◌, some, [], ◌∷◌, ◌++◌, length, length-append,
  length-drop, length-take_of_le, take-append, take, drop, arith,
}
use advanced_systems_program.Prelude.Int.{pos}
use advanced_systems_program.Prelude.Word.{u64_mod}
use advanced_systems_program.CLib.{Bytes, strcpy}
use advanced_systems_program.CharDriver.Device.{Kernel, patch, ret}
use advanced_systems_program.CharDriver.Ops.{mycdrv_open, mycdrv_lseek, new_position}
use advanced_systems_program.CharDriver.Ops.Buffer.{length-patch}
use advanced_systems_program.CharDriver.Ops.Laws.{file, read-fits, write-fits}
use advanced_systems_program.CharDriver.Ops.Seek.{lseek-within}
use advanced_systems_program.CharDriver.Menu.{
  write, read, prompt, shown, after_write, write_text, after_read, after_seek, command, main,
  write_buf_size, read_buf_size,
}

-- `write_buf` behind the `scanf`.
abbrev pub filled : (write_buf text : Bytes) → Bytes
filled write_buf text = text ++ 0 ∷ drop (suc (length text)) write_buf

strcpy-filled :
    (buf text : Bytes) → length text < length buf → strcpy buf text ≡ some (filled buf text)
unfolding strcpy
strcpy-filled buf text h = ground arith

length-filled :
    (buf text : Bytes) → length text < length buf → length (filled buf text) ≡ length buf
length-filled buf text h = omega (
  arith,
  length-append text (0 ∷ drop (suc (length text)) buf),
  length-drop (suc (length text)) buf,
)

module _ (k : Kernel) (bs : Bytes) (size block : ℕ) (fits : size ≤ length bs)
    (small : size < u64_mod) (copied : k.uncopied ≡ 0) (room : write_buf_size ≤ size) where
  main-write :
      (buf old text : Bytes)
      → length buf ≡ write_buf_size
      → length text < write_buf_size
      → main k (file bs size block 0).dev buf old (write text)
        ≡ some (pos 0, prompt, (file (patch bs 0 (filled buf text)) size block 0).dev)
  unfolding main command write_text after_write mycdrv_open
  main-write buf old text len short =
      let n : length (filled buf text) ≡ write_buf_size =
        length-filled buf text (rw len short) ∙ len in
      let w =
        write-fits k bs size block 0 fits small copied (filled buf text) (rw (n, zero-add) room) in
      let c : strcpy buf text ≡ some (filled buf text) = strcpy-filled buf text (rw len short) in
      rw (c, rw n at w) refl

module _ (k : Kernel) (bs : Bytes) (size block : ℕ) (fits : size ≤ length bs)
    (small : size < u64_mod) (copied : k.uncopied ≡ 0) (room : read_buf_size ≤ size) where
  main-read :
      (buf old : Bytes)
      → main k (file bs size block 0).dev buf old (read 0 (pos 0))
        ≡ some (
          pos 0,
          shown (take read_buf_size bs ++ drop read_buf_size old),
          (file bs size block 0).dev,
        )
  unfolding main command after_seek after_read mycdrv_open
  main-read buf old =
      let seek : mycdrv_lseek k (file bs size block 0) (pos 0) 0
          ≡ (file bs size block 0, ret (pos 0)) =
        lseek-within k bs size block 0 fits (pos 0) 0 0 (unfold new_position in refl)
          (omega arith) in
      let len : length (take read_buf_size bs) ≡ read_buf_size =
        length-take_of_le read_buf_size bs (omega arith) in
      rw (seek, read-fits k bs size block 0 fits small copied read_buf_size (omega arith), len) refl

drop_all : (n : ℕ) (xs : Bytes) → length xs ≡ n → drop n xs ≡ []
drop_all zero [] h = refl
drop_all (suc n) [] h = absurd (omega arith)
drop_all zero (x ∷ xs) h = absurd (omega arith)
drop_all (suc n) (x ∷ xs) h = drop_all n xs (omega arith)

first_bytes :
    (bs buf old text : Bytes)
    → length old ≡ read_buf_size
    → read_buf_size ≤ length text
    → take read_buf_size (patch bs 0 (filled buf text)) ++ drop read_buf_size old
      ≡ take read_buf_size text
unfolding patch
first_bytes bs buf old text len long = rw (drop_all read_buf_size old len) (
    append-nil _
    ∙ take-append read_buf_size (filled buf text) _
        (omega (arith, length-append text (0 ∷ drop (suc (length text)) buf)))
    ∙ take-append read_buf_size text _ long)

-- On a device of at least 100 bytes, the command `w` with a text of 10 to 99 bytes writes all of
-- `write_buf` and exits with 0, and the command `r` from the beginning in the next run fills all ten
-- bytes of `read_buf` with the first ten of the text.
pub main-write_read :
    (k : Kernel) (bs : Bytes) (size block : ℕ)
    → size ≤ length bs
    → size < u64_mod
    → k.uncopied ≡ 0
    → write_buf_size ≤ size
    → (buf old text : Bytes) → length buf ≡ write_buf_size
    → length old ≡ read_buf_size
    → read_buf_size ≤ length text
    → length text < write_buf_size
    → let d = (file (patch bs 0 (filled buf text)) size block 0).dev in
      (main k (file bs size block 0).dev buf old (write text) ≡ some (pos 0, prompt, d))
      × (main k d buf old (read 0 (pos 0)) ≡ some (pos 0, shown (take read_buf_size text), d))
main-write_read k bs size block fits small copied room buf old text len len' long short =
    let n : length (filled buf text) ≡ write_buf_size =
      length-filled buf text (rw len short) ∙ len in
    let fits' : size ≤ length (patch bs 0 (filled buf text)) =
      rw (length-patch bs 0 (filled buf text) (omega arith)) fits in
    (
      main-write k bs size block fits small copied room buf old text len short,
      main-read k (patch bs 0 (filled buf text)) size block fits' small copied (omega arith) buf old
          ∙ ap (λ z. some (pos 0, shown z, (file (patch bs 0 (filled buf text)) size block 0).dev))
              (first_bytes bs buf old text len' long),
    )
