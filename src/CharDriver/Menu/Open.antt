-- ===== src/CharDriver/Menu/Open.antt =====
-- userapp.c from its arguments on: the path of the device, and its `open`.
use advanced_systems_program.Prelude.{
  ℕ, ◌<◌, ◌≡◌, ap, arith, Option, none, some, List, [], ◌∷◌, ◌++◌, ltb, if◌then◌else◌, length,
  length-append, codes,
}
use advanced_systems_program.Prelude.Int.{pos}
use advanced_systems_program.CLib.{Bytes}
use advanced_systems_program.CLib.Strtol.{strtol, int_of, int_of_int}
use advanced_systems_program.CLib.Decimal.{digits, decimal, strtol-decimal, length-decimal}
use advanced_systems_program.CharDriver.Device.{Device, Kernel}
use advanced_systems_program.CharDriver.Menu.{Command, Exit, main}

abbrev path_size : ℕ
path_size = 20

-- `sprintf(dev_path, "%s%d", DEVICE, atoi(argv[1]))`; `none` runs over the array.
unfoldable pub dev_path : Bytes → Option Bytes
unfolding strtol digits
dev_path arg =
    let path = codes "/dev/mycdrv" ++ decimal (int_of (strtol arg)) in
    if ltb (length path) path_size then some path else none

pub data Ended : Type 0 where
  no_number : Ended  -- `return 1`
  not_opened : Ended  -- `exit(-1)`
  overrun : Ended
  ran : Exit → Ended

-- `nodes` has the devices that `open` finds.
unfoldable pub open_path : (Bytes → Option Device) → (Device → Exit) → Option Bytes → Ended
open_path nodes run none = overrun
open_path nodes run (some path) = elim (nodes path) [ none ↦ not_opened | some d ↦ ran (run d) ]

unfoldable pub userapp :
    (Bytes → Option Device) → Kernel → (write_buf read_buf : Bytes) → Command → List Bytes → Ended
unfolding dev_path open_path
userapp nodes k write_buf read_buf c [] = no_number
userapp nodes k write_buf read_buf c (program ∷ []) = no_number
userapp nodes k write_buf read_buf c (program ∷ arg ∷ args) =
    open_path nodes (λ d. main k d write_buf read_buf c) (dev_path arg)

dev_path-decimal :
    (n : ℕ) → n < 1000 → dev_path (decimal (pos n)) ≡ some (codes "/dev/mycdrv" ++ decimal (pos n))
unfolding dev_path
dev_path-decimal n h =
    let v = ap int_of (strtol-decimal (pos n) (omega arith) (omega arith)) in
    let w = int_of_int (pos n) (omega arith) (omega arith) in
    let l = length-decimal (pos n) h (omega arith) in
    let a = length-append (codes "/dev/mycdrv") (decimal (pos n)) in rw (v, w) (ground arith)

-- Given the number of a device below 1000, the program runs its command on the device of that
-- number, or finds none.
userapp-decimal :
    (nodes : Bytes → Option Device) (k : Kernel) (write_buf read_buf : Bytes) (c : Command)
    (program : Bytes) (n : ℕ) (args : List Bytes)
    → n < 1000
    → userapp nodes k write_buf read_buf c (program ∷ decimal (pos n) ∷ args)
      ≡ open_path nodes
          (λ d. main k d write_buf read_buf c)
          (some (codes "/dev/mycdrv" ++ decimal (pos n)))
unfolding userapp
userapp-decimal nodes k write_buf read_buf c program n args h =
    ap (open_path nodes (λ d. main k d write_buf read_buf c)) (dev_path-decimal n h)
