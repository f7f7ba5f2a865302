-- ===== src/ModeDriver/Setup.antt =====
-- `my_init` and `my_exit` of assignment6.c, as what they take from the kernel and give back.
use advanced_systems_program.Prelude.{
  ℕ, zero, suc, ◌≡◌, refl, ap, arith, Bool, true, false, Option, none, some, if◌then◌else◌, ◌==◌,
}
use advanced_systems_program.Prelude.Int.{ℤ, pos, negsuc}

-- The device numbers, the class, `dev`, its ramdisk, its cdev and its node.
pub record Held : Type 0 where
  pub region : Bool
  pub device_class : Bool
  pub dev : Bool
  pub ramdisk : Bool
  pub cdev : Bool
  pub node : Bool

abbrev pub none_held : Held
none_held = record {
  region = false;
  device_class = false;
  dev = false;
  ramdisk = false;
  cdev = false;
  node = false;
}

-- What the kernel answers; an error number is 0 for success. The results of `class_create` and
-- `device_create` are not looked at, and are taken to be good.
pub record Granted : Type 0 where
  pub region_error : ℕ
  pub has_dev : Bool
  pub has_ramdisk : Bool
  pub cdev_error : ℕ

abbrev pub negated : ℕ → ℤ
negated zero = pos 0
negated (suc e) = negsuc e

-- `cdev_add` and what follows.
unfoldable pub add_cdev : ℕ → Held → Held × ℤ
add_cdev err h =
    if err == 0 then (record h { cdev = true; node = true }, pos 0) else (h, negated err)

-- `none` is a use of NULL: neither result of `kmalloc` is looked at.
unfoldable pub my_init : Granted → Option (Held × ℤ)
unfolding add_cdev
my_init g =
    let h = record none_held { region = true; device_class = true; dev = true; ramdisk = true } in
    if g.region_error == 0
    then if g.has_dev then if g.has_ramdisk then some (add_cdev g.cdev_error h) else none else none
    else some (none_held, negated g.region_error)

-- The calls in their order: the cdev, the ramdisk, the node, `dev`, the numbers, the class.
unfoldable pub my_exit : Held → Held
my_exit h = record h {
  cdev = false;
  ramdisk = false;
  node = false;
  dev = false;
  region = false;
  device_class = false;
}

-- The device is there, as the calls on it need it.
abbrev pub is_usable : Held → Bool
is_usable h = if h.dev then if h.ramdisk then if h.cdev then h.node else false else false else false

-- What `my_init` has taken before `cdev_add`.
abbrev pub before_cdev : Held
before_cdev = record none_held { region = true; device_class = true; dev = true; ramdisk = true }

-- What is held after the given error of `cdev_add`.
abbrev pub Outcome : ℕ → Held → ℤ → Type 0
Outcome zero h v = (v ≡ pos 0) × (is_usable h ≡ true)
Outcome (suc e) h v = (v ≡ negsuc e) × (h ≡ before_cdev)

nonzero : (e : ℕ) → (suc e == 0) ≡ false
nonzero e = ground arith

add_cdev-Outcome :
    (err : ℕ)
    → (h : Held) × (v : ℤ) × (add_cdev err before_cdev ≡ (h, v))
      × (my_exit h ≡ none_held)
      × Outcome err h v
unfolding add_cdev my_exit
add_cdev-Outcome zero = (_, _, refl, refl, (refl, refl))
add_cdev-Outcome (suc e) = (before_cdev, negsuc e, rw (nonzero e) refl, refl, (refl, refl))

-- If the numbers are granted and both allocations succeed, `my_init` returns, and `my_exit` gives
-- back all that is then held. If `cdev_add` succeeds the result is 0 and the device is usable;
-- otherwise it is the error, with the numbers, the class, `dev` and the ramdisk still held.
pub my_init-Outcome :
    (g : Granted)
    → g.region_error ≡ 0
    → g.has_dev ≡ true
    → g.has_ramdisk ≡ true
    → (h : Held) × (v : ℤ) × (my_init g ≡ some (h, v))
      × (my_exit h ≡ none_held)
      × Outcome g.cdev_error h v
unfolding my_init
my_init-Outcome g r d m =
    let (h, v, e, x, c) = add_cdev-Outcome g.cdev_error in (h, v, rw (r, d, m) (ap some e), x, c)
