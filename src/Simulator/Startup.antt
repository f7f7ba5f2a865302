-- ===== src/Simulator/Startup.antt =====
-- The descriptors of simulator.c on their way to driver_simulator.c and keyboard.c. A fault, which is
-- a write over the end of an array or `strtol` of NULL, is `none`.
pub mod Handover
use advanced_systems_program.Prelude.{
  ℕ, zero, suc, ◌+◌, ◌<◌, Bool, true, false, not, ◌||◌, Option, none, some, List, [], ◌∷◌, ltb,
  ◌==◌, if◌then◌else◌, length, set, replicate, get_elem?, codes, ◌>>=◌,
}
use advanced_systems_program.Prelude.Int.{ℤ, pos, negsuc, ltb_ℤ}
use advanced_systems_program.CLib.{Bytes}
use advanced_systems_program.CLib.Strtol.{strtol, int_of}
use advanced_systems_program.CLib.Decimal.{digits, decimal}

-- The results of the four calls of `shm_open`.
pub record Opened : Type 0 where
  pub led_buffer : ℤ
  pub led_mutex : ℤ
  pub cond_var : ℤ
  pub int_mutex : ℤ

abbrev failed : ℤ → Bool
failed v = ltb_ℤ v (pos 0)

-- `init_shared_mem`, as far as its tests: `none` is `exit(0)`. The last test is on `cond_var_fd`.
unfoldable pub init_shared_mem : Opened → Option Opened
init_shared_mem o =
    if failed o.led_buffer
    then none
    else if failed o.led_mutex
    then none
    else if failed o.cond_var
    then none
    else if failed o.cond_var
    then none
    else some o

-- The text file and the ends of the three pipes.
pub record Ends : Type 0 where
  pub text : ℤ
  pub int_read : ℤ
  pub int_write : ℤ
  pub ack_read : ℤ
  pub ack_write : ℤ
  pub ctrl_read : ℤ
  pub ctrl_write : ℤ

-- `snprintf(fd, 10, "%d", v)` into an array of four bytes. At 10 characters or more the text would be
-- cut, which runs over the array too.
unfoldable pub print_fd : ℤ → Option Bytes
unfolding digits
print_fd v = if ltb (length (decimal v)) 4 then some (decimal v) else none

unfoldable pub print_fds : List ℤ → Option (List Bytes)
unfolding print_fd
print_fds [] = some []
print_fds (v ∷ vs) = print_fd v >>= λ t. print_fds vs >>= λ ts. some (t ∷ ts)

-- `args[i] = ...`
abbrev pub store : ℕ → Option Bytes → List (Option Bytes) → Option (List (Option Bytes))
store i arg args = if ltb i (length args) then some (set args i arg) else none

-- The arguments from `i` on, and NULL behind them.
unfoldable pub fill : ℕ → List Bytes → List (Option Bytes) → Option (List (Option Bytes))
fill i [] args = store i none args
fill i (t ∷ ts) args = store i (some t) args >>= fill (suc i) ts

abbrev args_size : ℕ
args_size = 9

-- The array `args` for `execv`.
unfoldable pub make_args : Bytes → List ℤ → Option (List (Option Bytes))
unfolding print_fds fill
make_args executable vs = print_fds vs >>= λ ts. fill 0 (executable ∷ ts) (replicate args_size none)

unfoldable pub driver_args : Ends → Opened → Option (List (Option Bytes))
unfolding make_args
driver_args e o = make_args (codes "./driver_simulator") (
    e.int_read ∷ e.ack_read ∷ e.ctrl_write ∷ o.led_buffer ∷ o.led_mutex ∷ o.cond_var ∷ o.int_mutex
    ∷ [])

unfoldable pub keyboard_args : Ends → Opened → Option (List (Option Bytes))
unfolding make_args
keyboard_args e o = make_args (codes "./keyboard") (
    e.text ∷ e.int_write ∷ e.ack_write ∷ e.ctrl_read ∷ o.led_buffer ∷ o.led_mutex ∷ o.cond_var
    ∷ o.int_mutex ∷ [])

-- What `main` is called with: the arguments up to the first NULL.
unfoldable pub argv_of : List (Option Bytes) → List Bytes
argv_of [] = []
argv_of (none ∷ args) = []
argv_of (some t ∷ args) = t ∷ argv_of args

-- The globals of driver_simulator.c, which keyboard.c has too.
pub record Fds : Type 0 where
  pub int_fd : ℤ
  pub ack_fd : ℤ
  pub ctrl_fd : ℤ
  pub int_mutex_fd : ℤ
  pub led_buffer_fd : ℤ
  pub led_mutex_fd : ℤ
  pub cond_var_fd : ℤ

abbrev pub unset : Fds
unset = record {
  int_fd = pos 0;
  ack_fd = pos 0;
  ctrl_fd = pos 0;
  int_mutex_fd = pos 0;
  led_buffer_fd = pos 0;
  led_mutex_fd = pos 0;
  cond_var_fd = pos 0;
}

-- `strtol(&argv[i][0], NULL, 10)`
abbrev number : List Bytes → ℕ → Option ℤ
number argv i = get_elem? argv i >>= λ t. some (int_of (strtol t))

abbrev missing : List Bytes → ℕ → Bool
missing argv zero = false
missing argv (suc i) =
    let before = missing argv i in elim (get_elem? argv (suc i)) [ none ↦ true | some t ↦ before ]

-- `init_fds` of driver_simulator.c: its result, and the globals.
unfoldable pub driver_init_fds : List Bytes → Option (ℤ × Fds)
unfolding strtol
driver_init_fds argv = if ltb (length argv) 7 || missing argv 6 then some (negsuc 0, unset) else do
  int_fd ← number argv 1
  ack_fd ← number argv 2
  ctrl_fd ← number argv 3
  overwritten ← number argv 4
  led_buffer_fd ← number argv 5
  cond_var_fd ← number argv 6
  int_mutex_fd ← number argv 7
  some (
    pos 0,
    record unset {
      int_fd = int_fd;
      ack_fd = ack_fd;
      ctrl_fd = ctrl_fd;
      led_buffer_fd = led_buffer_fd;
      cond_var_fd = cond_var_fd;
      int_mutex_fd = int_mutex_fd;
    },
  )

-- That of keyboard.c, with `text_file_fd` beside the other globals.
unfoldable pub keyboard_init_fds : List Bytes → Option (ℤ × ℤ × Fds)
unfolding strtol
keyboard_init_fds argv =
    if ltb (length argv) 8 || missing argv 7 then some (negsuc 0, pos 0, unset) else do
      text_file_fd ← number argv 1
      int_fd ← number argv 2
      ack_fd ← number argv 3
      ctrl_fd ← number argv 4
      overwritten ← number argv 5
      led_buffer_fd ← number argv 6
      cond_var_fd ← number argv 7
      int_mutex_fd ← number argv 8
      some (
        pos 0,
        text_file_fd,
        record unset {
          int_fd = int_fd;
          ack_fd = ack_fd;
          ctrl_fd = ctrl_fd;
          led_buffer_fd = led_buffer_fd;
          cond_var_fd = cond_var_fd;
          int_mutex_fd = int_mutex_fd;
        },
      )

-- `main` of the two programs up to `init_fds`: it exits, or goes on with these globals.
pub data Started (A : Type 0) : Type 0 where
  exits : Started A
  goes_on : A → Started A

unfoldable pub driver_main : List Bytes → Option (Started Fds)
unfolding driver_init_fds
driver_main argv =
    if not (length argv == 8) then some exits else driver_init_fds argv >>= λ r. some (goes_on r.1)

unfoldable pub keyboard_main : List Bytes → Option (Started (ℤ × Fds))
unfolding keyboard_init_fds
keyboard_main argv =
    if not (length argv == 9)
    then some exits
    else keyboard_init_fds argv >>= λ r. some (goes_on (r.1, r.2))
