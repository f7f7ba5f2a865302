-- ===== src/CharDriver/Ops/Tests.antt =====
-- The system calls on a small device, and the theorems at their inputs.
use advanced_systems_program.Prelude.{ℕ, ◌+◌, ◌*◌, ◌≡◌, refl, arith, true, false, some, codes}
use advanced_systems_program.Prelude.Int.{pos}
use advanced_systems_program.CLib.{Bytes}
use advanced_systems_program.CharDriver.Device.{Kernel, ret, fault}
use advanced_systems_program.CharDriver.Ops.{
  mycdrv_read, mycdrv_write, mycdrv_ioctl, asp_clear_buf, new_position,
}
use advanced_systems_program.CharDriver.Ops.Laws.{file, read-write}
use advanced_systems_program.CharDriver.Ops.Locking.{clear-write_overruns}

abbrev quiet : Kernel
quiet = record { signalled = false; has_memory = true; uncopied = 0; accessible = true }

abbrev no_memory : Kernel
no_memory = record quiet { has_memory = false }

abbrev stored : Bytes
stored = codes "abcdef"

read-write_example :
    let written = (mycdrv_write quiet (file stored 6 512 1) (codes "xyz") 3).0 in
    mycdrv_read quiet (record written { f_pos = 1 }) 3 ≡ (written, ret (pos 3), codes "xyz")
read-write_example =
    read-write quiet stored 6 512 1 (ground arith) (ground arith) refl (codes "xyz") (ground arith)

on_to_end : new_position (file stored 6 512 4) (pos 2) 1 ≡ some (pos 6)
unfolding new_position
on_to_end = refl

-- _IO('Z', 7)
abbrev unknown : ℕ
unknown = 90 * 256 + 7

clear-write_overruns_example :
    let cleared = (mycdrv_ioctl quiet (file stored 6 512 0) asp_clear_buf).0.dev in
    (mycdrv_write quiet (record { dev = cleared; f_pos = 70000 }) (codes "xyz") 3).1 ≡ fault
clear-write_overruns_example =
    clear-write_overruns quiet stored 6 512 70000 0 (codes "xyz") 3 refl refl (ground arith)
      (ground arith) (ground arith)
