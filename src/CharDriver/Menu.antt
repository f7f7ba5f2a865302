-- ===== src/CharDriver/Menu.antt =====
-- Assignment5/Dutka_Gianfranco_Assignment_5/userapp.c: one command on the device, written, cleared or
-- read. What `scanf` delivers is an argument. Open has what comes before it, from the arguments on.
pub mod Echo
pub mod Open
mod Tests
use advanced_systems_program.Prelude.{
  ℕ, zero, suc, Option, none, some, List, [], ◌++◌, take, drop, length,
}
use advanced_systems_program.Prelude.Int.{ℤ, pos, negsuc}
use advanced_systems_program.CLib.{Bytes, strcpy}
use advanced_systems_program.CharDriver.Device.{Device, File, Result, ret, sleeps, fault, Kernel}
use advanced_systems_program.CharDriver.Ops.{
  Answer, mycdrv_open, mycdrv_lseek, mycdrv_read, mycdrv_write, mycdrv_ioctl, asp_clear_buf,
}

-- The letter that is typed, with the text behind `w` and the origin and offset behind `r`.
pub data Command : Type 0 where
  write : Bytes → Command
  clear : Command
  read : (origin : ℕ) → (offset : ℤ) → Command
  other : Command

-- The last message; `shown` has the bytes of `read_buf`.
pub data Message : Type 0 where
  prompt cleared clear_failed reading_failed not_recognized : Message
  shown : Bytes → Message

-- The exit code, the message and the device; `none` is a crash, or a call that does not return.
abbrev pub Exit : Type 0
Exit = Option (ℤ × Message × Device)

abbrev pub write_buf_size : ℕ
write_buf_size = 100

abbrev pub read_buf_size : ℕ
read_buf_size = 10

-- The result of `write` is not looked at.
unfoldable pub after_write : File × Result → Exit
after_write (f, ret v) = some (pos 0, prompt, f.dev)
after_write (f, sleeps) = none
after_write (f, fault) = none

-- `scanf(" %[^\n]", write_buf)`, then all of `write_buf` is written.
unfoldable pub write_text : Kernel → File → Option Bytes → Exit
unfolding after_write
write_text k f none = none
write_text k f (some write_buf) = after_write (mycdrv_write k f write_buf write_buf_size)

unfoldable pub after_clear : File × Result → Exit
after_clear (f, ret (pos n)) = some (pos 0, cleared, f.dev)
after_clear (f, ret (negsuc n)) = some (negsuc 0, clear_failed, f.dev)
after_clear (f, sleeps) = none
after_clear (f, fault) = none

unfoldable pub after_read : Bytes → Answer → Exit
after_read read_buf (f, ret (pos zero), sent) = some (pos 0, reading_failed, f.dev)
after_read read_buf (f, ret (pos (suc n)), sent) =
    some (pos 0, shown (sent ++ drop (length sent) read_buf), f.dev)
after_read read_buf (f, ret (negsuc n), sent) = some (pos 0, reading_failed, f.dev)
after_read read_buf (f, sleeps, sent) = none
after_read read_buf (f, fault, sent) = none

-- The result of `lseek` is not looked at.
unfoldable pub after_seek : Kernel → Bytes → File × Result → Exit
unfolding after_read
after_seek k read_buf (f, ret v) = after_read read_buf (mycdrv_read k f read_buf_size)
after_seek k read_buf (f, sleeps) = none
after_seek k read_buf (f, fault) = none

-- The switch on the letter; `write_buf` and `read_buf` are what the arrays hold before.
unfoldable pub command : Kernel → File → (write_buf read_buf : Bytes) → Command → Exit
unfolding write_text after_clear after_seek
command k f write_buf read_buf (write text) = write_text k f (strcpy write_buf text)
command k f write_buf read_buf clear = after_clear (mycdrv_ioctl k f asp_clear_buf)
command k f write_buf read_buf (read origin offset) =
    after_seek k read_buf (mycdrv_lseek k f offset origin)
command k f write_buf read_buf other = some (pos 0, not_recognized, f.dev)

-- `main` behind a successful `open`.
unfoldable pub main : Kernel → Device → (write_buf read_buf : Bytes) → Command → Exit
unfolding command mycdrv_open
main k d write_buf read_buf c = command k (mycdrv_open d).0 write_buf read_buf c
