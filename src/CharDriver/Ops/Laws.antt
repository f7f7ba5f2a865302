-- ===== src/CharDriver/Ops/Laws.antt =====
-- What `lseek`, `read` and `write` do on a device whose buffer is there and whose semaphore is
-- free.
use advanced_systems_program.Prelude.{
  ℕ, ◌+◌, ◌-◌, ◌%◌, ◌≤◌, ◌<◌, ◌≡◌, ◌≢◌, refl, ap, ◌∙◌, false, some, [], ◌∷◌, length, take, drop,
  arith, ltb, leb, if◌then◌else◌,
}
use Prim.Native.Nat.{min}
use mathlib.Core.List.{append-nil}
use native.Mathlib.Nat.{add-zero}
use native.Mathlib.Decide.{dec_lt}
use advanced_systems_program.Prelude.Int.{pos}
use advanced_systems_program.Prelude.Word.{u64_mod}
use advanced_systems_program.CLib.{Bytes}
use advanced_systems_program.CharDriver.Device.{
  File, ret, Kernel, down, up, patch, received, zeros, efault,
}
use advanced_systems_program.CharDriver.Ops.{mycdrv_read, mycdrv_write, send, receive, read_taken}
use advanced_systems_program.CharDriver.Ops.Buffer.{length-patch, take-drop-patch}

-- A file at position `p` on a device with the buffer `bs`, of which `size` bytes count.
abbrev pub file : (bs : Bytes) (size block p : ℕ) → File
file bs size block p = record {
  dev = record { buffer = some bs; buffer_size = size; block_size = block; sem = 1 };
  f_pos = p;
}

-- The same while the semaphore is held.
abbrev pub held : (bs : Bytes) (size block p : ℕ) → File
held bs size block p = record {
  dev = record { buffer = some bs; buffer_size = size; block_size = block; sem = 0 };
  f_pos = p;
}

le_false : (a b : ℕ) → b < a → leb a b ≡ false
le_false a b h = ground arith

read_count :
    (size p count : ℕ)
    → p < size
    → p + count < u64_mod
    → (if ltb size ((p + count) % u64_mod) then size - p else count) ≡ min count (size - p)
read_count size p count here small = ground arith

write_count :
    (size p count : ℕ)
    → p ≤ size
    → p + count < u64_mod
    → (if ltb size ((count + p) % u64_mod) then (size + u64_mod - p) % u64_mod else count)
      ≡ min count (size - p)
write_count size p count here small = ground arith

received-take :
    (k : Kernel) (user : Bytes) (n : ℕ) → k.uncopied ≡ 0 → received k user n ≡ take n user
unfolding received zeros
received-take k user n h = let e : n - 0 ≡ n = omega arith in rw (h, e) (append-nil (take n user))

module _ (k : Kernel) (bs : Bytes) (size block p : ℕ) where
  send-sends :
      (n : ℕ)
      → p + n ≤ length bs
      → (k.uncopied ≡ 0
          → send k n (held bs size block p) bs
            ≡ (file bs size block (p + n), ret (pos n), take n (drop p bs)))
        × (k.uncopied ≢ 0
            → send k n (held bs size block p) bs ≡ (file bs size block p, ret efault, []))
  unfolding send up
  send-sends n h = (λ c. ground arith, λ c. ground arith)

  receive-patches :
      (n : ℕ) (user : Bytes)
      → p + n ≤ length bs
      → p + n ≤ size
      → k.uncopied ≡ 0
      → receive k n user (held bs size block p) bs
        ≡ (file (patch bs p (take n user)) size block (p + n), ret (pos n))
  unfolding receive up
  receive-patches n user h h' c = ground (arith, received-take k user n c)

module _ (k : Kernel) (bs : Bytes) (size block p : ℕ) (fits : size ≤ length bs) where
  read_taken-end :
      (count : ℕ)
      → size ≤ p
      → read_taken k count (held bs size block p) ≡ (file bs size block p, ret (pos 0), [])
  unfolding read_taken up
  read_taken-end count h = ground arith

  read_taken-send :
      (count : ℕ)
      → p < size
      → p + count < u64_mod
      → read_taken k count (held bs size block p)
        ≡ send k (min count (size - p)) (held bs size block p) bs
  unfolding read_taken up
  read_taken-send count here small =
      rw (le_false size p here, read_count size p count here small) refl

module _ (k : Kernel) (bs : Bytes) (size block p : ℕ) (fits : size ≤ length bs) where
  -- A read gives the bytes from the position on, as many as were asked for and the device has
  -- left, none behind its end, and moves the position past them. The device stays as it was, with
  -- the semaphore free.
  pub read-min :
      (count : ℕ)
      → p + count < u64_mod
      → k.uncopied ≡ 0
      → let n = min count (size - p) in
        mycdrv_read k (file bs size block p) count
        ≡ (file bs size block (p + n), ret (pos n), take n (drop p bs))
  unfolding mycdrv_read down up
  read-min count small c = elim (dec_lt p size) [
    | yes here ↦
        let sent = send-sends k bs size block p (min count (size - p)) (omega arith) in
        read_taken-send k bs size block p fits count here small ∙ sent.0 c
    | no past ↦
        let z : min count (size - p) ≡ 0 = omega arith in
        rw (z, add-zero) (read_taken-end k bs size block p fits count (omega arith))
  ]

  -- If not all bytes can be copied to the user, a read within the device returns -EFAULT and
  -- changes nothing.
  pub read-efault :
      (count : ℕ)
      → p + count < u64_mod
      → k.uncopied ≢ 0
      → p < size
      → mycdrv_read k (file bs size block p) count ≡ (file bs size block p, ret efault, [])
  unfolding mycdrv_read down up
  read-efault count small c here =
      let sent = send-sends k bs size block p (min count (size - p)) (omega arith) in
      read_taken-send k bs size block p fits count here small ∙ sent.1 c

  -- A write at a position within the device replaces the bytes from there on, as many as were given
  -- and the device has room for, and moves the position past them; the size and all other bytes
  -- stay.
  pub write-min :
      (user : Bytes)
      → p ≤ size
      → p + length user < u64_mod
      → k.uncopied ≡ 0
      → let n = min (length user) (size - p) in
        mycdrv_write k (file bs size block p) user (length user)
        ≡ (file (patch bs p (take n user)) size block (p + n), ret (pos n))
  unfolding mycdrv_write down up
  write-min user here small copied = rw (write_count size p (length user) here small) (
      receive-patches k bs size block p (min (length user) (size - p)) user (omega arith)
        (omega arith) copied)

take_all : (xs : Bytes) → take (length xs) xs ≡ xs
take_all [] = refl
take_all (x ∷ xs) = ap (◌∷◌ x) (take_all xs)

module _ (k : Kernel) (bs : Bytes) (size block p : ℕ) (fits : size ≤ length bs)
    (small : size < u64_mod) (copied : k.uncopied ≡ 0) where
  pub write-fits :
      (user : Bytes)
      → p + length user ≤ size
      → mycdrv_write k (file bs size block p) user (length user)
        ≡ (file (patch bs p user) size block (p + length user), ret (pos (length user)))
  write-fits user room =
      let n : min (length user) (size - p) ≡ length user = omega arith in
      write-min k bs size block p fits user (omega arith) (omega arith) copied
      ∙ rw (n, take_all user) refl

  pub read-fits :
      (count : ℕ)
      → p + count ≤ size
      → mycdrv_read k (file bs size block p) count
        ≡ (file bs size block (p + count), ret (pos count), take count (drop p bs))
  read-fits count room =
      let n : min count (size - p) ≡ count = omega arith in
      read-min k bs size block p fits count (omega arith) copied ∙ rw n refl

-- What a write within the device stores is what a read of as many bytes at its position gives back,
-- and the read leaves the device and the position as the write did.
pub read-write :
    (k : Kernel) (bs : Bytes) (size block p : ℕ)
    → size ≤ length bs
    → size < u64_mod
    → k.uncopied ≡ 0
    → (user : Bytes) → p + length user ≤ size
    → let stored = (mycdrv_write k (file bs size block p) user (length user)).0 in
      mycdrv_read k (record stored { f_pos = p }) (length user)
      ≡ (stored, ret (pos (length user)), user)
read-write k bs size block p fits small copied user room =
    let long : length (patch bs p user) ≡ length bs = length-patch bs p user (omega arith) in
    rw (write-fits k bs size block p fits small copied user room) (
      read-fits k (patch bs p user) size block p (omega arith) small copied (length user) room
      ∙ rw (take-drop-patch bs p user (omega arith)) refl)
