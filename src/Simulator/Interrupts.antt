-- ===== src/Simulator/Interrupts.antt =====
-- The threads of keyboard.c and driver_simulator.c, the pipe of the interrupts between them, and the
-- processes that hold its write end. keyboard.c locks the mutex that it has mapped from the shared
-- memory of simulator.c; `mapped` tells whether `mmap` succeeded. A descriptor of `shm_open` is closed
-- by `execv`, and then it does not: the lock of MAP_FAILED is a fault. A read of the text file or of
-- the pipe does not fail; the messages are left out. Both programs are taken to be started, though the
-- arguments of keyboard.c overrun their array in simulator.c (see Startup).
pub mod Delivery
use advanced_systems_program.Prelude.{
  ℕ, suc, ◌+◌, ◌<◌, ◌≡◌, Bool, true, false, ◌||◌, List, [], ◌∷◌, ◌++◌, length,
}
use advanced_systems_program.CLib.{Bytes}

-- `interrupt_thread` of keyboard.c: before the lock, with the lock, over, and ended by the fault.
pub data Sender : Type 0 where
  unlocked locked sent faulted : Sender

-- `interrupt_thread` of driver_simulator.c.
pub data Receiver : Type 0 where
  receiving over : Receiver

-- Who holds the write end `int_endpoint[1]`. Both children are forked before anyone closes it.
pub record Writers : Type 0 where
  pub simulator : Bool
  pub keyboard : Bool
  pub driver : Bool

abbrev pub held : Writers → Bool
held w = w.simulator || w.keyboard || w.driver

pub record System : Type 0 where
  pub text : Bytes  -- what the file has left
  pub mapped : Bool  -- the result of `mmap` for the mutex in keyboard.c
  pub sender : Sender
  pub pipe : Bytes
  pub receiver : Receiver
  pub printed : Bytes
  pub writers : Writers
  pub keyboard_control : Bool  -- `control_thread` of keyboard.c is still to run
  pub driver_control : Bool

abbrev pub start : Bool → Bytes → System
start mapped text = record {
  text = text;
  mapped = mapped;
  sender = unlocked;
  pipe = [];
  receiver = receiving;
  printed = [];
  writers = record { simulator = true; keyboard = true; driver = true };
  keyboard_control = true;
  driver_control = true;
}

pub data Step (capacity : ℕ) (s : System) : System → Type 0 where
  lock : s.sender ≡ unlocked → s.mapped ≡ true → Step capacity s (record s { sender = locked })
  -- the fault ends the process with both threads
  fault :
      s.sender ≡ unlocked
      → s.mapped ≡ false
      → Step capacity s (record s {
        sender = faulted;
        keyboard_control = false;
        writers = record s.writers { keyboard = false };
      })
  send :
      {c : ℕ} {cs : Bytes}
      → s.sender ≡ locked
      → s.text ≡ c ∷ cs
      → length s.pipe < capacity
      → Step capacity s (record s { text = cs; pipe = s.pipe ++ c ∷ []; sender = unlocked })
  finish : s.sender ≡ locked → s.text ≡ [] → Step capacity s (record s { sender = sent })
  control_keyboard :
      s.keyboard_control ≡ true → Step capacity s (record s { keyboard_control = false })
  -- a process ends with its last thread, and its descriptors are closed
  exit_keyboard :
      s.sender ≡ sent
      → s.keyboard_control ≡ false
      → s.writers.keyboard ≡ true
      → Step capacity s (record s { writers = record s.writers { keyboard = false } })
  receive :
      {c : ℕ} {cs : Bytes}
      → s.receiver ≡ receiving
      → s.pipe ≡ c ∷ cs
      → Step capacity s (record s { pipe = cs; printed = s.printed ++ c ∷ [] })
  -- `read` returns 0 once the pipe is empty and nobody holds its write end
  read_end :
      s.receiver ≡ receiving
      → s.pipe ≡ []
      → held s.writers ≡ false
      → Step capacity s (record s { receiver = over })
  control_driver : s.driver_control ≡ true → Step capacity s (record s { driver_control = false })
  exit_driver :
      s.receiver ≡ over
      → s.driver_control ≡ false
      → s.writers.driver ≡ true
      → Step capacity s (record s { writers = record s.writers { driver = false } })
  -- the calls of `close` in simulator.c, before it waits for the driver
  close_simulator :
      s.writers.simulator ≡ true
      → Step capacity s (record s { writers = record s.writers { simulator = false } })

pub data Reach (capacity : ℕ) (s : System) : System → Type 0 where
  here : Reach capacity s s
  next : {t u : System} → Reach capacity s t → Step capacity t u → Reach capacity s u
