-- ===== src/CharDriver/Client/Tests.antt =====
-- The script on a small device.
use advanced_systems_program.Prelude.{true, false, replicate}
use advanced_systems_program.CLib.{Bytes}
use advanced_systems_program.CharDriver.Device.{Kernel}

abbrev undisturbed : Kernel
undisturbed = record { signalled = false; has_memory = true; uncopied = 0; accessible = true }

abbrev blank : Bytes
blank = replicate 6 0
