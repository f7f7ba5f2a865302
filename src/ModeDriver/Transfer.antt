-- ===== src/ModeDriver/Transfer.antt =====
-- `e2_read` and `e2_write` of assignment6.c, as calls that find `sem1` free.
use advanced_systems_program.Prelude.{
  ℕ, ◌+◌, ◌-◌, ◌*◌, ◌%◌, ◌≤◌, ◌<◌, ◌≡◌, refl, [], length, take, if◌then◌else◌, ltb, leb, arith,
  Bool, true, false, Bool-cases, inl, inr,
}
use advanced_systems_program.Prelude.Int.{pos}
use advanced_systems_program.Prelude.Word.{u64_mod}
use advanced_systems_program.CLib.{Bytes}
use advanced_systems_program.CharDriver.Device.{
  page_size, patch, received, Kernel, Result, ret, fault,
}
use advanced_systems_program.ModeDriver.Device.{Device, Mode, mode1, mode2}

abbrev pub ramdisk_size : ℕ
ramdisk_size = 16 * page_size

abbrev take_sem1 : Device → Device
take_sem1 d = record d { sem1 = d.sem1 - 1 }

abbrev give_sem1 : Device → Device
give_sem1 d = record d { sem1 = d.sem1 + 1 }

-- `*f_pos + count > ramdisk_size`, on 64 bits.
unfoldable pub past_end : (f_pos count : ℕ) → Bool
past_end f_pos count = ltb ramdisk_size ((f_pos + count) % u64_mod)

-- The device, what the call returns, and the bytes that reach the user. `read_held` is the part
-- behind `down(&sem1)`: in MODE1 `sem1` is given back before the copy, in MODE2 behind it. The copy
-- starts at the first byte of the ramdisk.
abbrev pub Answer : Type 0
Answer = Device × Result × Bytes

unfoldable pub copy_out : Kernel → Bytes → (count : ℕ) → Device → Answer
copy_out k ramdisk count d =
    if ltb (length ramdisk) count
    then (d, fault, [])
    else (d, ret (pos (count - k.uncopied)), take (count - k.uncopied) ramdisk)

unfoldable pub read_held : Kernel → Mode → Bytes → (f_pos count : ℕ) → Device → Answer
unfolding copy_out past_end
read_held k mode1 ramdisk f_pos count d =
    if past_end f_pos count
    then (give_sem1 d, ret (pos 0), [])
    else copy_out k ramdisk count (give_sem1 d)
read_held k mode2 ramdisk f_pos count d =
    if past_end f_pos count
    then (give_sem1 d, ret (pos 0), [])
    else let (d', r, sent) = copy_out k ramdisk count d in (give_sem1 d', r, sent)

unfoldable pub e2_read : Kernel → Device → Bytes → (f_pos count : ℕ) → Answer
unfolding read_held
e2_read k d ramdisk f_pos count = read_held k d.mode ramdisk f_pos count (take_sem1 d)

-- The device, what the call returns, and the ramdisk.
unfoldable pub copy_in : Kernel → Bytes → (user : Bytes) → (count : ℕ) → Device → Answer
copy_in k ramdisk user count d =
    if ltb (length ramdisk) count
    then (d, fault, ramdisk)
    else (d, ret (pos (count - k.uncopied)), patch ramdisk 0 (received k user count))

unfoldable pub write_held : Kernel → Mode → Bytes → Bytes → (f_pos count : ℕ) → Device → Answer
unfolding copy_in past_end
write_held k mode1 ramdisk user f_pos count d =
    if past_end f_pos count
    then (give_sem1 d, ret (pos 0), ramdisk)
    else copy_in k ramdisk user count (give_sem1 d)
write_held k mode2 ramdisk user f_pos count d =
    if past_end f_pos count
    then (give_sem1 d, ret (pos 0), ramdisk)
    else let (d', r, stored) = copy_in k ramdisk user count d in (give_sem1 d', r, stored)

unfoldable pub e2_write : Kernel → Device → Bytes → (user : Bytes) → (f_pos count : ℕ) → Answer
unfolding write_held
e2_write k d ramdisk user f_pos count = write_held k d.mode ramdisk user f_pos count (take_sem1 d)

-- A device with `sem1` free.
abbrev pub free : (m : Mode) (count1 count2 sem2 : ℕ) → Device
free m count1 count2 sem2 = record {
  mode = m;
  count1 = count1;
  count2 = count2;
  sem1 = 1;
  sem2 = sem2;
}

past_end-within : (p n : ℕ) → p + n ≤ ramdisk_size → past_end p n ≡ false
unfolding past_end
past_end-within p n h = ground arith

past_end-behind : (p n : ℕ) → ramdisk_size < p + n → p + n < u64_mod → past_end p n ≡ true
unfolding past_end
past_end-behind p n h small = ground arith

no_more : (len p n : ℕ) → len ≡ ramdisk_size → p + n ≤ ramdisk_size → ltb len n ≡ false
no_more len p n e h = ground arith

module _ (k : Kernel) (count1 count2 sem2 : ℕ) (ramdisk : Bytes)
    (size : length ramdisk ≡ ramdisk_size) where
  read_within :
      (m : Mode) (p n : ℕ)
      → p + n ≤ ramdisk_size
      → e2_read k (free m count1 count2 sem2) ramdisk p n
        ≡ (free m count1 count2 sem2, ret (pos (n - k.uncopied)), take (n - k.uncopied) ramdisk)
  unfolding e2_read read_held copy_out
  read_within mode1 p n h = rw (past_end-within p n h, no_more (length ramdisk) p n size h) refl
  read_within mode2 p n h = rw (past_end-within p n h, no_more (length ramdisk) p n size h) refl

  read_behind :
      (m : Mode) (p n : ℕ)
      → ramdisk_size < p + n
      → p + n < u64_mod
      → e2_read k (free m count1 count2 sem2) ramdisk p n
        ≡ (free m count1 count2 sem2, ret (pos 0), [])
  unfolding e2_read read_held copy_out
  read_behind mode1 p n h small = rw (past_end-behind p n h small) refl
  read_behind mode2 p n h small = rw (past_end-behind p n h small) refl

  write_within :
      (m : Mode) (user : Bytes) (p n : ℕ)
      → p + n ≤ ramdisk_size
      → e2_write k (free m count1 count2 sem2) ramdisk user p n ≡ (
        free m count1 count2 sem2,
        ret (pos (n - k.uncopied)),
        patch ramdisk 0 (received k user n),
      )
  unfolding e2_write write_held copy_in
  write_within mode1 user p n h =
      rw (past_end-within p n h, no_more (length ramdisk) p n size h) refl
  write_within mode2 user p n h =
      rw (past_end-within p n h, no_more (length ramdisk) p n size h) refl

  write_behind :
      (m : Mode) (user : Bytes) (p n : ℕ)
      → ramdisk_size < p + n
      → p + n < u64_mod
      → e2_write k (free m count1 count2 sem2) ramdisk user p n
        ≡ (free m count1 count2 sem2, ret (pos 0), ramdisk)
  unfolding e2_write write_held copy_in
  write_behind mode1 user p n h small = rw (past_end-behind p n h small) refl
  write_behind mode2 user p n h small = rw (past_end-behind p n h small) refl

  -- On a device whose `sem1` is free a read, in both modes, gives back `sem1`. If the position and
  -- the count lead behind the end it returns 0 and copies nothing; else it returns the bytes that
  -- were copied, which are the first of the ramdisk, wherever the position is.
  pub e2_read-first_bytes :
      (m : Mode) (p n : ℕ)
      → p + n < u64_mod
      → let d = free m count1 count2 sem2 in
        e2_read k d ramdisk p n ≡ (
          if leb (p + n) ramdisk_size
          then (d, ret (pos (n - k.uncopied)), take (n - k.uncopied) ramdisk)
          else (d, ret (pos 0), []))
  e2_read-first_bytes m p n small = elim (Bool-cases (leb (p + n) ramdisk_size)) [
    | inl e ↦ rw e (read_within m p n (ground arith))
    | inr e ↦ rw e (read_behind m p n (ground arith) small)
  ]

  -- The same of a write, which stores at the start of the ramdisk wherever the position is.
  pub e2_write-first_bytes :
      (m : Mode) (user : Bytes) (p n : ℕ)
      → p + n < u64_mod
      → let d = free m count1 count2 sem2 in
        e2_write k d ramdisk user p n ≡ (
          if leb (p + n) ramdisk_size
          then (d, ret (pos (n - k.uncopied)), patch ramdisk 0 (received k user n))
          else (d, ret (pos 0), ramdisk))
  e2_write-first_bytes m user p n small = elim (Bool-cases (leb (p + n) ramdisk_size)) [
    | inl e ↦ rw e (write_within m user p n (ground arith))
    | inr e ↦ rw e (write_behind m user p n (ground arith) small)
  ]
