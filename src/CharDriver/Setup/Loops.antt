-- ===== src/CharDriver/Setup/Loops.antt =====
-- The two loops of the setup, index by index.
use advanced_systems_program.Prelude.{
  ℕ, zero, suc, ◌+◌, ◌<◌, ◌≡◌, ◌≢◌, refl, ◌∙◌, Bool, true, false, ◌&&◌, none, some, ltb, leb, arith,
  not,
}
use native.Mathlib.Nat.{add-zero}
use advanced_systems_program.CharDriver.Setup.{
  Holdings, Loading, put, build_device, build_loop, destroy, destroy_loop,
}

-- The first `n` devices are there, and no other.
pub record Devices (l : Loading) (n : ℕ) (h : Holdings) : Type 0 where
  pub nodes : (j : ℕ) → h.nodes j ≡ ltb j n
  pub cdevs : (j : ℕ) → h.cdevs j ≡ ltb j n
  pub buffers : (j : ℕ) → h.buffers j ≡ (ltb j n && l.has_buffer j)
  pub array : h.array ≡ true
  pub rest : (h.region ≡ true) × (h.device_class ≡ true)

build_device-ok :
    (l : Loading) (i : ℕ) (h : Holdings)
    → l.node_error i ≡ 0
    → Devices l i h
    → ((build_device l i h).1 ≡ 0) × Devices l (suc i) (build_device l i h).0
unfolding build_device
build_device-ok l i h ok d = rw ok (
  refl,
  record {
    nodes = λ j. ground (arith, d.nodes j);
    cdevs = λ j. ground (arith, d.cdevs j);
    buffers = λ j. ground (arith, d.buffers j);
    array = d.array;
    rest = d.rest;
  },
)

-- The first `n` devices are there, and device `n` has its buffer.
pub record Stopped (l : Loading) (n : ℕ) (h : Holdings) : Type 0 where
  pub nodes : (j : ℕ) → h.nodes j ≡ ltb j n
  pub cdevs : (j : ℕ) → h.cdevs j ≡ ltb j n
  pub buffers : (j : ℕ) → h.buffers j ≡ (leb j n && l.has_buffer j)
  pub array : h.array ≡ true

build_device-fails :
    (l : Loading) (i : ℕ) (h : Holdings)
    → l.node_error i ≢ 0
    → Devices l i h
    → ((build_device l i h).1 ≡ l.node_error i) × Stopped l i (build_device l i h).0
unfolding build_device
build_device-fails l i h bad d = (
  ground arith,
  record {
    nodes = λ j. ground (arith, d.nodes j);
    cdevs = λ j. ground (arith, d.cdevs j);
    buffers = λ j. ground (arith, d.buffers j);
    array = ground (arith, d.array);
  },
)

build_loop-next :
    (l : Loading) (k i : ℕ) (h : Holdings)
    → (build_device l i h).1 ≡ 0
    → build_loop l (suc k) i h ≡ build_loop l k (suc i) (build_device l i h).0
unfolding build_loop
build_loop-next l k i h e = rw e refl

build_loop-stop :
    (l : Loading) (k i : ℕ) (h : Holdings) {e : ℕ}
    → (build_device l i h).1 ≡ e
    → e ≢ 0
    → build_loop l (suc k) i h ≡ ((build_device l i h).0, some (i, e))
unfolding build_loop
build_loop-stop l k i h e ne = ground arith

pub build_loop-all :
    (l : Loading) (k i : ℕ) (h : Holdings)
    → ((j : ℕ) → j < i + k → l.node_error j ≡ 0)
    → Devices l i h
    → ((build_loop l k i h).1 ≡ none) × Devices l (i + k) (build_loop l k i h).0
build_loop-all l zero i h ok d = unfold build_loop in (refl, rw (add-zero i) d)
build_loop-all l (suc k) i h ok d =
    let (e, d') = build_device-ok l i h (ok i (omega arith)) d in
    let more : (j : ℕ) → j < suc i + k → l.node_error j ≡ 0 = λ j lt. ok j (omega arith) in
    let same : i + suc k ≡ suc i + k = omega arith in
    rw (build_loop-next l k i h e, same) (build_loop-all l k (suc i) (build_device l i h).0 more d')

pub build_loop-first_error :
    (l : Loading) (k i m : ℕ) (h : Holdings)
    → m < k
    → ((j : ℕ) → j < i + m → l.node_error j ≡ 0)
    → l.node_error (i + m) ≢ 0
    → Devices l i h
    → ((build_loop l k i h).1 ≡ some (i + m, l.node_error (i + m)))
      × Stopped l (i + m) (build_loop l k i h).0
build_loop-first_error l zero i m h lt ok bad d = absurd (omega arith)
build_loop-first_error l (suc k) i zero h lt ok bad d =
    let same : i + 0 ≡ i = omega arith in
    let fails = build_device-fails l i h (rw same at bad) d in
    rw (same, build_loop-stop l k i h fails.0 (rw same at bad)) (refl, fails.1)
build_loop-first_error l (suc k) i (suc m) h lt ok bad d =
    let (e, d') = build_device-ok l i h (ok i (omega arith)) d in
    let same : i + suc m ≡ suc i + m = omega arith in
    let more : (j : ℕ) → j < suc i + m → l.node_error j ≡ 0 = λ j h. ok j (omega arith) in
    rw (build_loop-next l k i h e, same)
      (build_loop-first_error l k (suc i) m (build_device l i h).0 (omega arith) more
        (rw same at bad) d')

-- The indices of a loop of `k` rounds from `i`.
abbrev pub window : (k i j : ℕ) → Bool
window k i j = leb i j && ltb j (i + k)

window-put :
    (k i j : ℕ) (f : ℕ → Bool)
    → (not (window k (suc i) j) && put i false f j) ≡ (not (window (suc k) i j) && f j)
window-put k i j f = ground arith

window-zero : (i j : ℕ) (b : Bool) → b ≡ (not (window 0 i j) && b)
window-zero i j b = ground arith

-- The loop of the cleanup takes away what stands at its indices and leaves the rest.
pub record Swept (k i : ℕ) (h h' : Holdings) (j : ℕ) : Type 0 where
  pub nodes : h'.nodes j ≡ (not (window k i j) && h.nodes j)
  pub cdevs : h'.cdevs j ≡ (not (window k i j) && h.cdevs j)
  pub buffers : h'.buffers j ≡ (not (window k i j) && h.buffers j)

pub destroy_loop-Swept : (k i : ℕ) (h : Holdings) (j : ℕ) → Swept k i h (destroy_loop k i h) j
unfolding destroy_loop
destroy_loop-Swept zero i h j = record {
  nodes = window-zero i j (h.nodes j);
  cdevs = window-zero i j (h.cdevs j);
  buffers = window-zero i j (h.buffers j);
}
destroy_loop-Swept (suc k) i h j =
    let s = destroy_loop-Swept k (suc i) (destroy i h) j in
    record {
      nodes = s.nodes ∙ window-put k i j h.nodes;
      cdevs = s.cdevs ∙ window-put k i j h.cdevs;
      buffers = s.buffers ∙ window-put k i j h.buffers;
    }
