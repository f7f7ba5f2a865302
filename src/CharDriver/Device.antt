-- ===== src/CharDriver/Device.antt =====
-- `struct char_devices` of char_driver.c, an open file on it, the results of a system call, and
-- the kernel functions that the driver calls.
use advanced_systems_program.Prelude.{
  ℕ, suc, ◌+◌, ◌-◌, ◌*◌, ◌≡◌, Bool, Option, none, some, ◌++◌, if◌then◌else◌, ltb, length, replicate,
  length-replicate, take, drop,
}
use advanced_systems_program.Prelude.Int.{ℤ, negsuc}
use advanced_systems_program.CLib.{Bytes}

-- PAGE_SIZE of x86-64, and `ramdisk_size`.
abbrev pub page_size : ℕ
page_size = 4096

abbrev pub ramdisk_size : ℕ
ramdisk_size = 16 * page_size

abbrev pub device_block_size : ℕ
device_block_size = 512

-- `data` is NULL or the allocated bytes; `sem` is the count of the semaphore.
pub record Device : Type 0 where
  pub buffer : Option Bytes
  pub buffer_size : ℕ
  pub block_size : ℕ
  pub sem : ℕ

-- `filp`: the device behind `private_data`, and the position.
pub record File : Type 0 where
  pub dev : Device
  pub f_pos : ℕ

-- What a call returns; or it sleeps on the semaphore; or it uses memory that it does not own.
pub data Result : Type 0 where
  ret : ℤ → Result
  sleeps : Result
  fault : Result

-- -EINVAL and the others.
abbrev pub einval : ℤ
einval = negsuc 21

abbrev pub erestartsys : ℤ
erestartsys = negsuc 511

abbrev pub efault : ℤ
efault = negsuc 13

abbrev pub enomem : ℤ
enomem = negsuc 11

abbrev pub enotty : ℤ
enotty = negsuc 24

-- What the kernel decides during a call: whether a signal ends a sleep, whether `kzalloc` finds
-- memory, how many bytes `copy_to_user` or `copy_from_user` leaves out, and what `access_ok` says.
pub record Kernel : Type 0 where
  pub signalled : Bool
  pub has_memory : Bool
  pub uncopied : ℕ
  pub accessible : Bool

-- `down_interruptible`: a free semaphore is taken at once.
pub data Down : Type 0 where
  taken : Device → Down
  interrupted : Down
  waiting : Down

unfoldable pub down : Kernel → Device → Down
down k d =
    if ltb 0 d.sem
    then taken (record d { sem = d.sem - 1 })
    else if k.signalled
    then interrupted
    else waiting

unfoldable pub up : Device → Device
up d = record d { sem = suc d.sem }

-- `kzalloc(n)`.
unfoldable pub zeros : ℕ → Bytes
zeros n = replicate n 0

pub length-zeros : (n : ℕ) → length (zeros n) ≡ n
unfolding zeros
length-zeros n = length-replicate n 0

unfoldable pub kzalloc : Kernel → ℕ → Option Bytes
kzalloc k n = if k.has_memory then some (zeros n) else none

-- The bytes `xs` written over those at `p`.
unfoldable pub patch : Bytes → ℕ → Bytes → Bytes
patch bs p xs = take p bs ++ (xs ++ drop (p + length xs) bs)

-- What `copy_from_user` leaves at its target: it fills what it could not copy with zeros.
unfoldable pub received : Kernel → Bytes → ℕ → Bytes
received k user count = take (count - k.uncopied) user ++ zeros k.uncopied
