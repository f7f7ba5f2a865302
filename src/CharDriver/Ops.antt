-- ===== src/CharDriver/Ops.antt =====
-- The file operations of char_driver.c. Positions and sizes are taken to lie below 2^63; sums of a
-- position and a count wrap at 2^64, as in the source.
pub mod Buffer
pub mod Laws
pub mod Locking
pub mod Seek
mod Tests
use advanced_systems_program.Prelude.{
  ℕ, zero, suc, ◌+◌, ◌-◌, ◌*◌, ◌/◌, ◌%◌, ◌^◌, Bool, true, false, not, ◌&&◌, Option, none, some,
  List, [], ◌∷◌, ◌==◌, if◌then◌else◌, ltb, leb, length, get_elem?, set, take, drop,
}
use advanced_systems_program.Prelude.Int.{ℤ, pos, negsuc, add_ℕ}
use advanced_systems_program.Prelude.Word.{u64_mod}
use advanced_systems_program.CLib.{Bytes}
use advanced_systems_program.CharDriver.Device.{
  Device, File, Result, ret, sleeps, fault, Kernel, Down, taken, interrupted, waiting, down, up,
  kzalloc, patch, received, ramdisk_size, einval, erestartsys, efault, enomem, enotty,
}

-- `mycdrv_open`: `private_data` becomes the device of the inode; a new file starts at 0.
unfoldable pub mycdrv_open : Device → File × Result
mycdrv_open d = (record { dev = d; f_pos = 0 }, ret (pos 0))

unfoldable pub mycdrv_release : File → File × Result
mycdrv_release f = (f, ret (pos 0))

-- The switch on `whence`; `none` is the default case.
unfoldable pub new_position : File → ℤ → ℕ → Option ℤ
new_position f off whence =
    if whence == 0
    then some off
    else if whence == 1
    then some (add_ℕ f.f_pos off)
    else if whence == 2
    then some (add_ℕ f.dev.buffer_size off)
    else none

unfoldable pub store_byte : Bytes → ℕ → Option ℕ → Option Bytes
store_byte target n none = none
store_byte target n (some b) = if ltb n (length target) then some (set target n b) else none

-- `while (n < buffer_size) { data[n] = temp[n]; ++n; }` with `k` rounds left; `none` is an access
-- outside of one of the two.
unfoldable pub copy_loop : ℕ → ℕ → Bytes → Option Bytes → Option Bytes
unfolding store_byte
copy_loop k n temp none = none
copy_loop zero n temp (some target) = some target
copy_loop (suc k) n temp (some target) =
    copy_loop k (suc n) temp (store_byte target n (get_elem? temp n))

abbrev pub allocated : Option Bytes → Option (Option Bytes)
allocated none = none
allocated (some bs) = some (some bs)

-- The loop over buffers that may be NULL. With nothing to copy it touches neither.
unfoldable pub copy_buffer : ℕ → Option Bytes → Option Bytes → Option (Option Bytes)
copy_buffer zero old new = some new
copy_buffer (suc k) none new = none
copy_buffer (suc k) (some temp) new = allocated (copy_loop (suc k) 0 temp new)

unfoldable pub grown : File → ℕ → Option (Option Bytes) → File × Result
grown f newpos none = (f, fault)
grown f newpos (some buffer) = (
  record f { dev = up (record (f.dev) { buffer = buffer; buffer_size = newpos + 2048 }) },
  ret (pos newpos),
)

-- The part of `mycdrv_lseek` under the semaphore.
unfoldable pub seek_to : Kernel → ℕ → File → File × Result
unfolding grown
seek_to k newpos f =
    let size = f.dev.buffer_size in
    if leb size newpos
    then grown f newpos (copy_buffer size f.dev.buffer (kzalloc k (size + newpos + 2048)))
    else (record f { dev = up f.dev }, ret (pos newpos))

unfoldable pub lseek_down : Kernel → ℕ → File → Down → File × Result
unfolding seek_to
lseek_down k newpos f interrupted = (f, ret erestartsys)
lseek_down k newpos f waiting = (f, sleeps)
lseek_down k newpos f (taken d) = seek_to k newpos (record f { dev = d; f_pos = newpos })

unfoldable pub lseek_checked : Kernel → File → Option ℤ → File × Result
unfolding lseek_down
lseek_checked k f none = (f, ret einval)
lseek_checked k f (some (negsuc n)) = (f, ret einval)
lseek_checked k f (some (pos newpos)) = lseek_down k newpos f (down k f.dev)

unfoldable pub mycdrv_lseek : Kernel → File → ℤ → ℕ → File × Result
unfolding lseek_checked new_position
mycdrv_lseek k f off whence = lseek_checked k f (new_position f off whence)

-- The bytes that the user gets, beside the file and the result.
abbrev pub Answer : Type 0
Answer = File × Result × Bytes

abbrev pub out : File → ℤ → Answer
out f v = (record f { dev = up f.dev }, ret v, [])

-- `copy_to_user(buf, dev->data + *f_pos, count)` and what follows.
unfoldable pub send : Kernel → ℕ → File → Bytes → Answer
send k count f bs =
    if not (leb (f.f_pos + count) (length bs))
    then (f, fault, [])
    else if not (k.uncopied == 0)
    then out f efault
    else (
      record f { dev = up f.dev; f_pos = f.f_pos + count },
      ret (pos count),
      take count (drop f.f_pos bs),
    )

unfoldable pub send_from : Kernel → ℕ → File → Option Bytes → Answer
unfolding send
send_from k count f none = out f (pos 0)
send_from k count f (some bs) = send k count f bs

unfoldable pub read_taken : Kernel → ℕ → File → Answer
unfolding send_from
read_taken k count f =
    let size = f.dev.buffer_size in
    if leb size f.f_pos
    then out f (pos 0)
    else send_from k (if ltb size ((f.f_pos + count) % u64_mod) then size - f.f_pos else count) f
        f.dev.buffer

unfoldable pub read_down : Kernel → ℕ → File → Down → Answer
unfolding read_taken
read_down k count f interrupted = (f, ret erestartsys, [])
read_down k count f waiting = (f, sleeps, [])
read_down k count f (taken d) = read_taken k count (record f { dev = d })

unfoldable pub mycdrv_read : Kernel → File → ℕ → Answer
unfolding read_down
mycdrv_read k f count = read_down k count f (down k f.dev)

-- `copy_from_user(dev->data + *f_pos, buf, count)` and what follows.
unfoldable pub receive : Kernel → ℕ → Bytes → File → Bytes → File × Result
receive k count user f bs =
    let d = record (f.dev) { buffer = some (patch bs f.f_pos (received k user count)) } in
    let size = if ltb d.buffer_size (f.f_pos + count) then f.f_pos + count else d.buffer_size in
    if not (leb (f.f_pos + count) (length bs))
    then (f, fault)
    else if not (k.uncopied == 0)
    then (record f { dev = up d }, ret efault)
    else (
      record f { dev = up (record d { buffer_size = size }); f_pos = f.f_pos + count },
      ret (pos count),
    )

unfoldable pub write_taken : Kernel → ℕ → Bytes → File → Option Bytes → File × Result
unfolding receive
write_taken k count user f none = (record f { dev = up f.dev }, ret enomem)
write_taken k count user f (some bs) =
    let size = f.dev.buffer_size in
    receive k
      (if ltb size ((count + f.f_pos) % u64_mod)
        then (size + u64_mod - f.f_pos) % u64_mod
        else count)
      user f bs

unfoldable pub write_down : Kernel → ℕ → Bytes → File → Down → File × Result
unfolding write_taken
write_down k count user f interrupted = (f, ret erestartsys)
write_down k count user f waiting = (f, sleeps)
write_down k count user f (taken d) = write_taken k count user (record f { dev = d }) d.buffer

-- `user` is the memory behind `buf`.
unfoldable pub mycdrv_write : Kernel → File → Bytes → ℕ → File × Result
unfolding write_down
mycdrv_write k f user count = write_down k count user f (down k f.dev)

-- `_IOC_TYPE`, `_IOC_DIR`, and ASP_CLEAR_BUF = _IOW('Z', 1, int).
abbrev pub ioc_type : ℕ → ℕ
ioc_type cmd = cmd / 2 ^ 8 % 2 ^ 8

abbrev pub ioc_dir : ℕ → ℕ
ioc_dir cmd = cmd / 2 ^ 30 % 4

abbrev pub cdrv_ioc_magic : ℕ
cdrv_ioc_magic = b'Z'

abbrev pub asp_clear_buf : ℕ
asp_clear_buf = 1 * 2 ^ 30 + 4 * 2 ^ 16 + cdrv_ioc_magic * 2 ^ 8 + 1

-- The switch under the semaphore: the default case returns without `up`.
unfoldable pub ioctl_taken : Kernel → ℕ → File → File × Result
ioctl_taken k cmd f =
    if cmd == asp_clear_buf
    then (
      record f {
        dev = up (record (f.dev) { buffer = kzalloc k ramdisk_size; buffer_size = ramdisk_size });
        f_pos = 0;
      },
      ret (pos 0),
    )
    else (f, ret enotty)

unfoldable pub ioctl_down : Kernel → ℕ → File → Down → File × Result
unfolding ioctl_taken
ioctl_down k cmd f interrupted = (f, ret erestartsys)
ioctl_down k cmd f waiting = (f, sleeps)
ioctl_down k cmd f (taken d) = ioctl_taken k cmd (record f { dev = d })

-- `access_ok` is asked only if the command reads or writes.
unfoldable pub mycdrv_ioctl : Kernel → File → ℕ → File × Result
unfolding ioctl_down
mycdrv_ioctl k f cmd =
    if not (ioc_type cmd == cdrv_ioc_magic)
    then (f, ret enotty)
    else if not (ioc_dir cmd == 0) && not k.accessible
    then (f, ret efault)
    else ioctl_down k cmd f (down k f.dev)
