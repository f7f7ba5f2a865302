-- ===== src/CharDriver/Setup/Tests.antt =====
-- Loading and unloading with concrete answers of the kernel.
use advanced_systems_program.Prelude.{◌<◌, ◌≡◌, refl, arith, true, false, some, ◌==◌, if◌then◌else◌}
use advanced_systems_program.Prelude.Int.{pos}
use advanced_systems_program.CharDriver.Device.{enomem}
use advanced_systems_program.CharDriver.Setup.{Loading, number_of_devices, my_init, my_exit}
use advanced_systems_program.CharDriver.Setup.Loops.{Devices}
use advanced_systems_program.CharDriver.Setup.Balance.{
  Released, no_leak, Prepared, refusal, my_init-my_exit,
}

abbrev granted : Loading
granted = record {
  num_devices = 2;
  region_error = 0;
  class_error = 0;
  has_array = true;
  has_buffer = λ j. true;
  node_error = λ j. 0;
}

granted-Prepared : Prepared granted
granted-Prepared = record { region = refl; device_class = refl; array = refl }

my_init-my_exit_example :
    ((my_init granted).1 ≡ pos 0)
    × Devices granted (number_of_devices granted) (my_init granted).0
    × Released no_leak (my_exit granted (my_init granted).0)
my_init-my_exit_example = my_init-my_exit granted granted-Prepared λ j lt. refl

abbrev second_refused : Loading
second_refused = record granted { node_error = λ j. if j == 1 then 12 else 0 }

second_refused-Prepared : Prepared second_refused
second_refused-Prepared = record { region = refl; device_class = refl; array = refl }

two_devices : 1 < number_of_devices second_refused
unfolding number_of_devices
two_devices = ground arith

abbrev no_array : Loading
no_array = record granted { has_array = false }

array_refused : refusal no_array ≡ some enomem
unfolding refusal
array_refused = refl
