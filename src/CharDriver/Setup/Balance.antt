-- ===== src/CharDriver/Setup/Balance.antt =====
-- What the module holds after it was loaded, after a failure to load, and after it was unloaded.
use advanced_systems_program.Prelude.{
  ℕ, ◌<◌, ◌≡◌, ◌≢◌, refl, ap, ◌∙◌, Bool, true, false, ◌&&◌, Option, none, some, ◌==◌, if◌then◌else◌,
  ltb, leb, arith, not,
}
use native.Mathlib.Nat.{zero-add}
use advanced_systems_program.Prelude.Int.{ℤ, pos}
use advanced_systems_program.CharDriver.Device.{enomem}
use advanced_systems_program.CharDriver.Setup.{
  Holdings, nothing_held, Loading, failed, build_loop, Built, destroy_loop, cleanup_char_device,
  number_of_devices, init_built, my_init, my_exit, cleanup_array,
}
use advanced_systems_program.CharDriver.Setup.Loops.{
  Devices, Stopped, build_loop-all, build_loop-first_error, destroy_loop-Swept, window,
}

-- Everything is given back, but for the buffers at the given indices.
pub record Released (leaked : ℕ → Bool) (h : Holdings) : Type 0 where
  pub region : h.region ≡ false
  pub device_class : h.device_class ≡ false
  pub array : h.array ≡ false
  pub nodes : (j : ℕ) → h.nodes j ≡ false
  pub cdevs : (j : ℕ) → h.cdevs j ≡ false
  pub buffers : (j : ℕ) → h.buffers j ≡ leaked j

abbrev pub no_leak : ℕ → Bool
no_leak j = false

-- The start of the loop.
abbrev started : Holdings
started = record nothing_held { region = true; device_class = true; array = true }

started-Devices : (l : Loading) → Devices l 0 started
started-Devices l = record {
  nodes = λ j. ground arith;
  cdevs = λ j. ground arith;
  buffers = λ j. ground arith;
  array = refl;
  rest = (refl, refl);
}

-- Which answers make `my_init` reach the loop.
pub record Prepared (l : Loading) : Type 0 where
  pub region : l.region_error ≡ 0
  pub device_class : l.class_error ≡ 0
  pub array : l.has_array ≡ true

my_init-loop :
    (l : Loading)
    → Prepared l
    → my_init l ≡ init_built (build_loop l (number_of_devices l) 0 started)
unfolding my_init
my_init-loop l p = ground arith

below_zero : (n j : ℕ) → ltb j n ≡ window n 0 j
below_zero n j = ground arith

swept_out : (n j : ℕ) (b : Bool) → b ≡ ltb j n → (not (window n 0 j) && b) ≡ false
swept_out n j b h = ground arith

-- The holdings after the cleanup of an allocated array.
abbrev cleaned : ℕ → Holdings → Holdings
cleaned n h = record (destroy_loop n 0 h) { array = false; device_class = false; region = false }

cleanup-cleaned : (n : ℕ) (h : Holdings) → h.array ≡ true → cleanup_char_device n h ≡ cleaned n h
unfolding cleanup_char_device cleanup_array
cleanup-cleaned n h array =
    ap (λ b. record (cleanup_array b n h) { device_class = false; region = false }) array

cleanup-Released :
    (n : ℕ) (h : Holdings) (leaked : ℕ → Bool)
    → h.array ≡ true
    → ((j : ℕ) → h.nodes j ≡ ltb j n)
    → ((j : ℕ) → h.cdevs j ≡ ltb j n)
    → ((j : ℕ) → (not (window n 0 j) && h.buffers j) ≡ leaked j)
    → Released leaked (cleanup_char_device n h)
cleanup-Released n h leaked array nodes cdevs buffers = rw (cleanup-cleaned n h array) (record {
  region = refl;
  device_class = refl;
  array = refl;
  nodes = λ j. (destroy_loop-Swept n 0 h j).nodes ∙ swept_out n j (h.nodes j) (nodes j);
  cdevs = λ j. (destroy_loop-Swept n 0 h j).cdevs ∙ swept_out n j (h.cdevs j) (cdevs j);
  buffers = λ j. (destroy_loop-Swept n 0 h j).buffers ∙ buffers j;
})

init_built-none : (b : Built) → b.1 ≡ none → init_built b ≡ (b.0, pos 0)
unfolding init_built
init_built-none (h, none) e = refl
init_built-none (h, some x) e = ground arith

init_built-some :
    (b : Built) {i err : ℕ}
    → b.1 ≡ some (i, err)
    → init_built b ≡ (cleanup_char_device i b.0, failed err)
unfolding init_built
init_built-some (h, none) e = ground arith
init_built-some (h, some x) e = ground arith

swept_buffers : (n j : ℕ) (b c : Bool) → b ≡ (ltb j n && c) → (not (window n 0 j) && b) ≡ false
swept_buffers n j b c h = ground arith

-- If every request succeeds, `my_init` returns 0 with the region, the class, the array and exactly
-- the first devices, NUM_DEVICES of them or three; and `my_exit` then gives everything back.
pub my_init-my_exit :
    (l : Loading)
    → Prepared l
    → ((j : ℕ) → j < number_of_devices l → l.node_error j ≡ 0)
    → ((my_init l).1 ≡ pos 0)
      × Devices l (number_of_devices l) (my_init l).0
      × Released no_leak (my_exit l (my_init l).0)
unfolding my_exit
my_init-my_exit l p ok =
    let n = number_of_devices l in
    let (e, d) =
      build_loop-all l n 0 started (λ j lt. ok j (rw zero-add at lt)) (started-Devices l) in
    let d' : Devices l n (build_loop l n 0 started).0 = rw zero-add at d in
    rw (my_init-loop l p, init_built-none (build_loop l n 0 started) e)
      (
        refl,
        d',
        cleanup-Released n (build_loop l n 0 started).0 no_leak d'.array d'.nodes d'.cdevs
            λ j. swept_buffers n j _ (l.has_buffer j) (d'.buffers j),
      )

leaked_at : (n j : ℕ) (b : Bool) → (not (window n 0 j) && (leb j n && b)) ≡ (j == n && b)
leaked_at n j b = ground arith

-- If the node of a device is the first to be refused, `my_init` returns that error and gives
-- everything back but one thing: the buffer of that device.
pub my_init-node_error :
    (l : Loading)
    → Prepared l
    → (m : ℕ) → m < number_of_devices l
    → ((j : ℕ) → j < m → l.node_error j ≡ 0)
    → l.node_error m ≢ 0
    → ((my_init l).1 ≡ failed (l.node_error m))
      × Released (λ j. j == m && l.has_buffer j) (my_init l).0
my_init-node_error l p m lt ok bad =
    let n = number_of_devices l in
    let (e, s) =
      build_loop-first_error l n 0 m started lt (λ j h. ok j (rw zero-add at h))
        (rw (zero-add m) bad) (started-Devices l) in
    let e' : (build_loop l n 0 started).1 ≡ some (m, l.node_error m) = rw zero-add at e in
    let s' : Stopped l m (build_loop l n 0 started).0 = rw zero-add at s in
    rw (my_init-loop l p, init_built-some (build_loop l n 0 started) e')
      (
        refl,
        cleanup-Released m (build_loop l n 0 started).0 _ s'.array s'.nodes s'.cdevs
            λ j. ap (λ b. not (window m 0 j) && b) (s'.buffers j) ∙ leaked_at m j (l.has_buffer j),
      )

-- The error of the first request before the loop that is refused.
unfoldable pub refusal : Loading → Option ℤ
refusal l =
    if not (l.region_error == 0)
    then some (failed l.region_error)
    else if not (l.class_error == 0)
    then some (failed l.class_error)
    else if l.has_array
    then none
    else some enomem

-- If the device numbers, the class or the array are refused, `my_init` returns the error of the
-- first of these and holds nothing.
pub my_init-refused : (l : Loading) (e : ℤ) → refusal l ≡ some e → my_init l ≡ (nothing_held, e)
unfolding my_init cleanup_char_device cleanup_array refusal
my_init-refused l e r = ground arith
