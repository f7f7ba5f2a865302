-- ===== src/CharDriver/Setup.antt =====
-- `my_init`, `build_device`, `cleanup_char_device` and `my_exit` of char_driver.c, as what they take
-- from the kernel and give back to it.
mod Loops
pub mod Balance
mod Tests
use advanced_systems_program.Prelude.{
  ℕ, zero, suc, ◌-◌, Bool, true, false, Option, none, some, ◌==◌, if◌then◌else◌,
}
use advanced_systems_program.Prelude.Int.{ℤ, pos, negsuc}
use advanced_systems_program.CharDriver.Device.{enomem}

-- What the module holds: the range of device numbers, the class, the array of devices, and for each
-- index whether its buffer is allocated, its cdev added and its device node created.
pub record Holdings : Type 0 where
  pub region : Bool
  pub device_class : Bool
  pub array : Bool
  pub buffers : ℕ → Bool
  pub cdevs : ℕ → Bool
  pub nodes : ℕ → Bool

abbrev pub nothing_held : Holdings
nothing_held = record {
  region = false;
  device_class = false;
  array = false;
  buffers = λ i. false;
  cdevs = λ i. false;
  nodes = λ i. false;
}

-- What the kernel answers while the module is loaded; an error number is 0 for success. The
-- parameter NUM_DEVICES is taken not to be negative.
pub record Loading : Type 0 where
  pub num_devices : ℕ
  pub region_error : ℕ
  pub class_error : ℕ
  pub has_array : Bool
  pub has_buffer : ℕ → Bool
  pub node_error : ℕ → ℕ

-- `-e` for an error number `e`.
abbrev pub failed : ℕ → ℤ
failed zero = pos 0
failed (suc e) = negsuc e

abbrev pub put : ℕ → Bool → (ℕ → Bool) → ℕ → Bool
put i b f j = if j == i then b else f j

-- The device number, the cdev and the node of device `i`. The result of `cdev_add` is not looked
-- at, so `err` is still 0 behind it.
unfoldable pub build_device : Loading → ℕ → Holdings → Holdings × ℕ
build_device l i h =
    let h' = record h { buffers = put i (l.has_buffer i) h.buffers; cdevs = put i true h.cdevs } in
    if l.node_error i == 0
    then (record h' { nodes = put i true h.nodes }, 0)
    else (record h' { cdevs = put i false h'.cdevs }, l.node_error i)

-- The outcome of the loop: the index and the error of the device that failed.
abbrev pub Built : Type 0
Built = Holdings × Option (ℕ × ℕ)

unfoldable pub build_loop : Loading → (rounds i : ℕ) → Holdings → Built
unfolding build_device
build_loop l zero i h = (h, none)
build_loop l (suc k) i h =
    let (h', err) = build_device l i h in
    let rest = build_loop l k (suc i) h' in if err == 0 then rest else (h', some (i, err))

-- `device_destroy`, `cdev_del` and `kfree` of one device.
abbrev pub destroy : ℕ → Holdings → Holdings
destroy i h = record h {
  nodes = put i false h.nodes;
  cdevs = put i false h.cdevs;
  buffers = put i false h.buffers;
}

-- The loop of `cleanup_char_device` from index `i`.
unfoldable pub destroy_loop : (rounds i : ℕ) → Holdings → Holdings
destroy_loop zero i h = h
destroy_loop (suc k) i h = destroy_loop k (suc i) (destroy i h)

-- `if (char_devices) { … }`
unfoldable pub cleanup_array : Bool → ℕ → Holdings → Holdings
cleanup_array true n h = record (destroy_loop n 0 h) { array = false }
cleanup_array false n h = h

-- The class pointer may be an error value here; `class_destroy` then does nothing.
unfoldable pub cleanup_char_device : ℕ → Holdings → Holdings
cleanup_char_device n h = record (cleanup_array h.array n h) {
  device_class = false;
  region = false;
}

unfoldable pub number_of_devices : Loading → ℕ
number_of_devices l = if l.num_devices == 0 then 3 else l.num_devices

unfoldable pub init_built : Built → Holdings × ℤ
init_built (h, none) = (h, pos 0)
init_built (h, some (i, err)) = (cleanup_char_device i h, failed err)

unfoldable pub my_init : Loading → Holdings × ℤ
my_init l =
    let h = record nothing_held { region = true } in
    let h' = record h { device_class = true } in
    if l.region_error == 0
    then if l.class_error == 0
      then if l.has_array
        then init_built (build_loop l (number_of_devices l) 0 (record h' { array = true }))
        else (cleanup_char_device 0 h', enomem)
      else (cleanup_char_device 0 h, failed l.class_error)
    else (nothing_held, failed l.region_error)

unfoldable pub my_exit : Loading → Holdings → Holdings
my_exit l h = cleanup_char_device (number_of_devices l) h
