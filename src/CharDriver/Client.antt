-- ===== src/CharDriver/Client.antt =====
-- Assignment5/Dutka_Gianfranco_Assignment_5/testing_kmod.c: the script that writes a text to the
-- device and reads it back twice.
pub mod Echo
mod Tests
use advanced_systems_program.Prelude.{ℕ, zero, suc, Option, none, some, List, [], ◌∷◌, length}
use advanced_systems_program.Prelude.Int.{ℤ, pos, negsuc}
use advanced_systems_program.CLib.{Bytes, c_str}
use advanced_systems_program.CharDriver.Device.{File, Result, ret, sleeps, fault, Kernel, patch}
use advanced_systems_program.CharDriver.Ops.{Answer, mycdrv_lseek, mycdrv_read, mycdrv_write}

-- A printed message. A read prints the count and the string that `buff` holds.
pub data Line : Type 0 where
  wrote : ℕ → Line
  write_failed : ℕ → Line
  seek_ok seek_failed : Line
  has_read : ℕ → Bytes → Line
  read_failed : ℕ → Line

-- The file and the messages; `none` is a call that does not return.
abbrev pub Output : Type 0
Output = Option (File × List Line)

unfoldable pub print : Line → Output → Output
print l none = none
print l (some (f, ls)) = some (f, l ∷ ls)

-- The test `bytesWritten >= 0`; a negative result is the error number less 1.
unfoldable pub say_write : ℤ → Line
say_write (pos n) = wrote n
say_write (negsuc n) = write_failed n

-- The test `offset > 0`.
unfoldable pub say_seek : ℤ → Line
say_seek (pos zero) = seek_failed
say_seek (pos (suc n)) = seek_ok
say_seek (negsuc n) = seek_failed

unfoldable pub say_read : ℤ → Bytes → Line
say_read (pos n) shown = has_read n shown
say_read (negsuc n) shown = read_failed n

unfoldable pub after : File × Result → (ℤ → Line) → (File → Output) → Output
unfolding print
after (f, ret v) say rest = print (say v) (rest f)
after (f, sleeps) say rest = none
after (f, fault) say rest = none

-- `buff` after the read of `sent` and `buff[str_size] = '\0'`.
unfoldable pub ended : (size : ℕ) → (sent buff : Bytes) → Bytes
ended size sent buff = patch (patch buff 0 sent) size (0 ∷ [])

unfoldable pub after_read : (size : ℕ) → Bytes → Answer → (Bytes → File → Output) → Output
unfolding print
after_read size buff (f, ret v, sent) rest =
    print (say_read v (c_str (ended size sent buff))) (rest (ended size sent buff) f)
after_read size buff (f, sleeps, sent) rest = none
after_read size buff (f, fault, sent) rest = none

unfoldable pub seek_start : Kernel → (File → Output) → File → Output
unfolding after
seek_start k rest f = after (mycdrv_lseek k f (pos 0) 0) say_seek rest

unfoldable pub read_back : Kernel → (size : ℕ) → Bytes → (Bytes → File → Output) → File → Output
unfolding after_read
read_back k size buff rest f = after_read size buff (mycdrv_read k f size) rest

abbrev pub finish : Bytes → File → Output
finish buff f = some (f, [])

-- `main` behind the `open`, with the text `str` and what `buff` holds.
unfoldable pub run : Kernel → File → (str buff : Bytes) → Output
unfolding seek_start read_back after
run k f str buff =
    let size = length str in
    after (mycdrv_write k f str size) say_write
      (seek_start k (read_back k size buff λ b. seek_start k (read_back k size b finish)))
