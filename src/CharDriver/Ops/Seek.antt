-- ===== src/CharDriver/Ops/Seek.antt =====
-- `mycdrv_lseek`: every position, and the growth of the buffer.
use advanced_systems_program.Prelude.{
  ℕ, zero, suc, ◌+◌, ◌≤◌, ◌<◌, ◌≡◌, refl, ap, ◌∙◌, true, false, Option, none, some, ◌++◌, length,
  take, arith, leb,
}
use advanced_systems_program.Prelude.Int.{ℤ, pos, negsuc}
use advanced_systems_program.CLib.{Bytes}
use advanced_systems_program.CharDriver.Device.{
  File, Result, ret, fault, Kernel, down, up, kzalloc, zeros, length-zeros, einval,
}
use advanced_systems_program.CharDriver.Ops.{
  mycdrv_lseek, copy_buffer, seek_to, lseek_checked, new_position, copy_loop,
}
use advanced_systems_program.CharDriver.Ops.Buffer.{copy_buffer-copies, drop-zeros}
use advanced_systems_program.CharDriver.Ops.Laws.{file, held}

-- The buffer after a seek to `n` behind the end: the old bytes, and zeros.
abbrev pub extended : Bytes → ℕ → ℕ → Bytes
extended bs size n = take size bs ++ zeros (n + 2048)

le_true : (a b : ℕ) → a ≤ b → leb a b ≡ true
le_true a b h = ground arith

copy_buffer-null : (size : ℕ) (bs : Bytes) → 0 < size → copy_buffer size (some bs) none ≡ none
unfolding copy_buffer copy_loop
copy_buffer-null zero bs h = absurd (omega arith)
copy_buffer-null (suc k) bs h = refl

new_position-whence :
    (f : File) (off : ℤ) (whence : ℕ) → 3 ≤ whence → new_position f off whence ≡ none
unfolding new_position
new_position-whence f off whence h = ground arith

module _ (k : Kernel) (bs : Bytes) (size block p : ℕ) (fits : size ≤ length bs) where
  copied-extended :
      (n : ℕ)
      → copy_buffer size (some bs) (some (zeros (size + n + 2048)))
        ≡ some (some (extended bs size n))
  copied-extended n =
      let assoc : size + n + 2048 ≡ size + (n + 2048) = omega arith in
      rw assoc (
        copy_buffer-copies size bs (zeros (size + (n + 2048))) fits
          (omega (arith, length-zeros (size + (n + 2048))))
        ∙ rw (drop-zeros size (n + 2048)) refl)

  seek_to-within :
      (n : ℕ) → n < size → seek_to k n (held bs size block n) ≡ (file bs size block n, ret (pos n))
  unfolding seek_to up
  seek_to-within n h = ground arith

  seek_to-grows :
      (n : ℕ)
      → size ≤ n
      → k.has_memory ≡ true
      → seek_to k n (held bs size block n)
        ≡ (file (extended bs size n) (n + 2048) block n, ret (pos n))
  unfolding seek_to kzalloc up
  seek_to-grows n h memory = rw (le_true size n h, memory, copied-extended n) refl

  -- Without memory for the new buffer, the loop writes through NULL.
  seek_to-no_memory :
      (n : ℕ)
      → size ≤ n
      → 0 < size
      → k.has_memory ≡ false
      → (seek_to k n (held bs size block n)).1 ≡ fault
  unfolding seek_to kzalloc
  seek_to-no_memory n h some_bytes memory =
      rw (le_true size n h, memory, copy_buffer-null size bs some_bytes) refl

  -- The position that the arguments of a call name, before the test of its sign.
  abbrev pub target : ℤ → ℕ → Option ℤ
  target off whence = new_position (file bs size block p) off whence

  lseek-target :
      (off : ℤ) (whence : ℕ) {o : Option ℤ}
      → target off whence ≡ o
      → mycdrv_lseek k (file bs size block p) off whence ≡ lseek_checked k (file bs size block p) o
  unfolding mycdrv_lseek
  lseek-target off whence t = ap (lseek_checked k (file bs size block p)) t

  lseek-seek :
      (n : ℕ)
      → lseek_checked k (file bs size block p) (some (pos n)) ≡ seek_to k n (held bs size block n)
  unfolding lseek_checked down
  lseek-seek n = refl

  -- A call with another `whence` than 0, 1, 2 returns -EINVAL and changes nothing.
  pub lseek-whence :
      (off : ℤ) (whence : ℕ)
      → 3 ≤ whence
      → mycdrv_lseek k (file bs size block p) off whence ≡ (file bs size block p, ret einval)
  unfolding lseek_checked
  lseek-whence off whence h =
      lseek-target off whence (new_position-whence (file bs size block p) off whence h)

  -- So does a call with a negative target.
  pub lseek-negative :
      (off : ℤ) (whence n : ℕ)
      → target off whence ≡ some (negsuc n)
      → mycdrv_lseek k (file bs size block p) off whence ≡ (file bs size block p, ret einval)
  unfolding lseek_checked
  lseek-negative off whence n t = lseek-target off whence t

  -- A call with a target within the device moves the position there, returns it, and leaves the
  -- device as it is.
  pub lseek-within :
      (off : ℤ) (whence n : ℕ)
      → target off whence ≡ some (pos n)
      → n < size
      → mycdrv_lseek k (file bs size block p) off whence ≡ (file bs size block n, ret (pos n))
  lseek-within off whence n t h = lseek-target off whence t ∙ lseek-seek n ∙ seek_to-within n h

  -- A call with a target behind the end of the device moves the position there and returns it. It
  -- extends the buffer to 2048 bytes more than the target: the old bytes, and zeros.
  pub lseek-grows :
      (off : ℤ) (whence n : ℕ)
      → target off whence ≡ some (pos n)
      → size ≤ n
      → k.has_memory ≡ true
      → mycdrv_lseek k (file bs size block p) off whence
        ≡ (file (extended bs size n) (n + 2048) block n, ret (pos n))
  lseek-grows off whence n t h m = lseek-target off whence t ∙ lseek-seek n ∙ seek_to-grows n h m

  -- Without memory for the longer buffer, such a call on a device that is not empty writes through
  -- NULL.
  pub lseek-no_memory :
      (off : ℤ) (whence n : ℕ)
      → target off whence ≡ some (pos n)
      → size ≤ n
      → 0 < size
      → k.has_memory ≡ false
      → (mycdrv_lseek k (file bs size block p) off whence).1 ≡ fault
  lseek-no_memory off whence n t h s m =
      ap (λ (x : File × Result). x.1) (lseek-target off whence t ∙ lseek-seek n)
      ∙ seek_to-no_memory n h s m
