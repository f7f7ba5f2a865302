-- ===== src/CharDriver/Menu/Tests.antt =====
-- The program on a small device: a text is written and read again.
use advanced_systems_program.Prelude.{true, false, codes, replicate}
use advanced_systems_program.CLib.{Bytes}
use advanced_systems_program.CharDriver.Device.{Kernel}

abbrev steady : Kernel
steady = record { signalled = false; has_memory = true; uncopied = 0; accessible = true }

abbrev page : Bytes
page = replicate 100 0

abbrev scratch : Bytes
scratch = replicate 10 63

abbrev letter : Bytes
letter = codes "Hello, device"
