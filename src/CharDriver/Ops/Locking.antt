-- ===== src/CharDriver/Ops/Locking.antt =====
-- The semaphore: an unknown command never gives it back. And the position: a write behind the end
-- of the device asks for more memory than there is.
use advanced_systems_program.Prelude.{
  ℕ, ◌+◌, ◌-◌, ◌%◌, ◌<◌, ◌≡◌, ◌≢◌, refl, true, false, length, arith, ltb, if◌then◌else◌,
}
use advanced_systems_program.Prelude.Int.{pos}
use advanced_systems_program.Prelude.Word.{u64_mod}
use advanced_systems_program.CLib.{Bytes}
use advanced_systems_program.CharDriver.Device.{
  File, ret, sleeps, fault, Kernel, down, up, ramdisk_size, zeros, length-zeros, kzalloc, enotty,
}
use advanced_systems_program.CharDriver.Ops.{
  mycdrv_ioctl, mycdrv_read, mycdrv_write, ioc_type, cdrv_ioc_magic, asp_clear_buf, receive,
}
use advanced_systems_program.CharDriver.Ops.Laws.{file, held}

module _ (k : Kernel) (bs : Bytes) (size block p cmd : ℕ) where
  ioctl-unknown :
      ioc_type cmd ≡ cdrv_ioc_magic
      → k.accessible ≡ true
      → cmd ≢ asp_clear_buf
      → mycdrv_ioctl k (file bs size block p) cmd ≡ (held bs size block p, ret enotty)
  unfolding mycdrv_ioctl down
  ioctl-unknown magic access other = ground arith

  held_sleeps :
      (j : Kernel) (q count : ℕ) (user : Bytes)
      → j.signalled ≡ false
      → j.accessible ≡ true
      → ((mycdrv_read j (held bs size block q) count).1 ≡ sleeps)
        × ((mycdrv_write j (held bs size block q) user count).1 ≡ sleeps)
        × ((mycdrv_ioctl j (held bs size block q) asp_clear_buf).1 ≡ sleeps)
  unfolding mycdrv_ioctl mycdrv_read mycdrv_write down
  held_sleeps j q count user quiet ok = (rw quiet refl, rw quiet refl, rw (ok, quiet) refl)

  -- On a command of the driver's type that is not ASP_CLEAR_BUF the call returns -ENOTTY with the
  -- semaphore taken, so that afterwards a read, a write and an ASP_CLEAR_BUF on the device, from any
  -- position, sleep if no signal comes.
  pub ioctl-unknown_sleeps :
      ioc_type cmd ≡ cdrv_ioc_magic
      → k.accessible ≡ true
      → cmd ≢ asp_clear_buf
      → (j : Kernel) (q count : ℕ) (user : Bytes) → j.signalled ≡ false
      → j.accessible ≡ true
      → let d = (mycdrv_ioctl k (file bs size block p) cmd).0.dev in
        let f : File = record { dev = d; f_pos = q } in
        ((mycdrv_ioctl k (file bs size block p) cmd).1 ≡ ret enotty)
        × ((mycdrv_read j f count).1 ≡ sleeps)
        × ((mycdrv_write j f user count).1 ≡ sleeps)
        × ((mycdrv_ioctl j f asp_clear_buf).1 ≡ sleeps)
  ioctl-unknown_sleeps magic access other j q count user quiet ok =
      let asleep = held_sleeps j q count user quiet ok in
      rw (ioctl-unknown magic access other) (refl, asleep.0, asleep.1, asleep.2)

module _ (k : Kernel) (bs : Bytes) (size block p : ℕ) where
  -- ASP_CLEAR_BUF puts a zeroed buffer of `ramdisk_size` bytes in place, resets the position, and
  -- gives the semaphore back.
  pub ioctl-clears :
      k.accessible ≡ true
      → k.has_memory ≡ true
      → mycdrv_ioctl k (file bs size block p) asp_clear_buf
        ≡ (file (zeros ramdisk_size) ramdisk_size block 0, ret (pos 0))
  unfolding mycdrv_ioctl down up kzalloc
  ioctl-clears access memory = rw (access, memory) refl

behind :
    (size p count : ℕ)
    → size < p
    → p + count < u64_mod
    → 0 < count
    → (if ltb size ((count + p) % u64_mod) then (size + u64_mod - p) % u64_mod else count)
      ≡ u64_mod - (p - size)
behind size p count h small some_bytes = ground arith

receive-overruns :
    (k : Kernel) (bs : Bytes) (size block p n : ℕ) (user : Bytes)
    → length bs < p + n
    → (receive k n user (held bs size block p) bs).1 ≡ fault
unfolding receive
receive-overruns k bs size block p n user h = ground arith

module _ (k : Kernel) (bs : Bytes) (size block p : ℕ) (user : Bytes) where
  write-overruns :
      (count : ℕ)
      → size < p
      → length bs < u64_mod
      → p + count < u64_mod
      → 0 < count
      → (mycdrv_write k (file bs size block p) user count).1 ≡ fault
  unfolding mycdrv_write down
  write-overruns count h real small some_bytes =
      rw (behind size p count h small some_bytes)
        (receive-overruns k bs size block p (u64_mod - (p - size)) user (omega arith))

-- A file whose position lies behind `ramdisk_size`, and another file on the device that clears the
-- buffer: a write of any bytes through the first then runs out of the buffer, since the room from
-- the position to the end is computed modulo 2^64.
pub clear-write_overruns :
    (k : Kernel) (bs : Bytes) (size block p q : ℕ) (user : Bytes) (count : ℕ)
    → k.accessible ≡ true
    → k.has_memory ≡ true
    → ramdisk_size < p
    → p + count < u64_mod
    → 0 < count
    → let cleared = (mycdrv_ioctl k (file bs size block q) asp_clear_buf).0.dev in
      (mycdrv_write k (record { dev = cleared; f_pos = p }) user count).1 ≡ fault
clear-write_overruns k bs size block p q user count access memory behind_end small some_bytes =
    rw (ioctl-clears k bs size block q access memory) (
      write-overruns k (zeros ramdisk_size) ramdisk_size block p user count behind_end
        (omega (arith, length-zeros ramdisk_size)) small some_bytes)
