-- ===== src/Keyboard/System.antt =====
-- The shared memory, the pipes, and where the four threads of keyboard_sim.c stand.
use advanced_systems_program.Prelude.{
  ℕ, suc, ◌-◌, ◌≡◌, ◌≢◌, Bool, true, false, not, ◌&&◌, ◌||◌, ◌==◌, List, [], ◌∷◌, ◌++◌,
  if◌then◌else◌, ltb,
}
use advanced_systems_program.Prelude.Int.{ℤ, pos, negsuc}
use advanced_systems_program.CLib.{Bytes}

-- `interrupt_keyboard_thread`: at the top of its loop; behind it; behind `*done_reading = -1`; gone.
pub data Sender : Type 0 where
  sending ending killing sender_gone : Sender

-- `interrupt_driver_thread` with the threads that it starts and joins: at the top of its loop with
-- `m_lock_int` free; in `usb_kbd_irq` with a byte; in `usb_kbd_event` behind the change of the light;
-- behind the join; out of its loop; before it closes the pipe of the control; gone. From
-- `dispatching` to `joined` it holds `m_lock_int`.
pub data Receiver : Type 0 where
  receiving : Receiver
  dispatching : ℕ → Receiver
  signalling joined leaving closing receiver_gone : Receiver

-- `control_driver_thread`: at the test of `*kill_thread`; at the wait for `send_control`; gone.
pub data Notifier : Type 0 where
  testing awaiting notifier_gone : Notifier

-- `control_keyboard_thread`: at the test of `*kill_control`; in the read; behind one that gave a byte;
-- gone.
pub data Toggler : Type 0 where
  polling reading toggling toggler_gone : Toggler

pub record System : Type 0 where
  pub file : Bytes  -- what is left of the text file
  pub done_reading : ℤ
  pub int_pipe : Bytes
  pub led_buff : Bool
  pub caps_lock : Bool
  pub caps_history : List Bool
  pub send_control : Bool
  pub ctrl_pipe : ℕ  -- the bytes 'C' in `ctrl_endpoint2`
  pub kill_thread : Bool
  pub kill_control : Bool
  pub screen : Bytes
  pub sender : Sender
  pub receiver : Receiver
  pub notifier : Notifier
  pub toggler : Toggler

-- `if (isalpha(c) && CAPS_LOCK) { if (c > 96 && c < 123) c ^= 0x20; }`
unfoldable pub shift : Bool → ℕ → ℕ
shift caps c = if caps && (ltb 96 c && ltb c 123) then c - 32 else c

-- `c == '@' || c == '&'`
unfoldable pub is_caps_key : ℕ → Bool
is_caps_key c = c == b'@' || c == b'&'

-- Whether the byte is printed.
unfoldable pub is_printed : ℕ → Bool
is_printed c = not (c == b'#') && not (is_caps_key c)

-- What `usb_kbd_irq` does before it returns or reaches the lock of the control.
unfoldable pub dispatch : ℕ → System → System
dispatch c s =
    if is_caps_key c
    then record s { led_buff = not s.led_buff; receiver = signalling }
    else record s { screen = if c == b'#' then s.screen else s.screen ++ c ∷ []; receiver = joined }

-- The part of `control_keyboard_thread` under `m_lock_led`.
unfoldable pub toggle : System → System
toggle s =
    let caps = not s.caps_lock in
    if s.led_buff
    then record s {
      caps_lock = caps;
      caps_history = s.caps_history ++ caps ∷ [];
      toggler = polling;
    }
    else record s { toggler = polling }

abbrev pub start : Bytes → System
start text = record {
  file = text;
  done_reading = pos 1;
  int_pipe = [];
  led_buff = false;
  caps_lock = false;
  caps_history = [];
  send_control = false;
  ctrl_pipe = 0;
  kill_thread = false;
  kill_control = false;
  screen = [];
  sender = sending;
  receiver = receiving;
  notifier = testing;
  toggler = polling;
}

-- Whether the receiver is outside of `m_lock_int`.
abbrev pub is_unlocked : Receiver → Bool
is_unlocked receiving = true
is_unlocked (dispatching c) = false
is_unlocked signalling = false
is_unlocked joined = false
is_unlocked leaving = true
is_unlocked closing = true
is_unlocked receiver_gone = true

-- `write(ctrl_endpoint2[1], &c, 1)` fails once the receiver has closed that end.
unfoldable pub written : Receiver → ℕ → ℕ
written receiving n = suc n
written (dispatching c) n = suc n
written signalling n = suc n
written joined n = suc n
written leaving n = suc n
written closing n = suc n
written receiver_gone n = n

-- The sender sends only while `done_reading` is not 0.
pub data Step (s : System) : System → Type 0 where
  sends :
      {c : ℕ} {cs : Bytes}
      → s.sender ≡ sending
      → is_unlocked s.receiver ≡ true
      → s.done_reading ≢ pos 0
      → s.file ≡ c ∷ cs
      → Step s (record s {
        file = cs;
        done_reading = pos 0;
        int_pipe = s.int_pipe ++ shift s.caps_lock c ∷ [];
      })
  sees_end :
      s.sender ≡ sending
      → is_unlocked s.receiver ≡ true
      → s.done_reading ≢ pos 0
      → s.file ≡ []
      → Step s (record s { done_reading = pos 0; sender = ending })
  marks_end :
      s.sender ≡ ending
      → is_unlocked s.receiver ≡ true
      → Step s (record s { done_reading = negsuc 0; sender = killing })
  sender_kills : s.sender ≡ killing → Step s (record s { kill_thread = true; sender = sender_gone })
  receives :
      {c : ℕ} {cs : Bytes}
      → s.receiver ≡ receiving
      → s.int_pipe ≡ c ∷ cs
      → Step s (record s { int_pipe = cs; receiver = dispatching c })
  dispatches : {c : ℕ} → s.receiver ≡ dispatching c → Step s (dispatch c s)
  signals : s.receiver ≡ signalling → Step s (record s { send_control = true; receiver = joined })
  joins : s.receiver ≡ joined → Step s (record s { done_reading = pos 1; receiver = receiving })
  finds_nothing : s.receiver ≡ receiving → s.int_pipe ≡ [] → s.done_reading ≢ negsuc 0 → Step s s
  leaves :
      s.receiver ≡ receiving
      → s.int_pipe ≡ []
      → s.done_reading ≡ negsuc 0
      → Step s (record s { kill_thread = true; receiver = leaving })
  receiver_kills :
      s.receiver ≡ leaving → Step s (record s { send_control = true; receiver = closing })
  closes : s.receiver ≡ closing → Step s (record s { receiver = receiver_gone })
  tests : s.notifier ≡ testing → s.kill_thread ≡ false → Step s (record s { notifier = awaiting })
  notifies :
      s.notifier ≡ awaiting
      → s.send_control ≡ true
      → Step s (record s {
        ctrl_pipe = written s.receiver s.ctrl_pipe;
        send_control = false;
        notifier = testing;
      })
  notifier_kills :
      s.notifier ≡ testing
      → s.kill_thread ≡ true
      → Step s (record s { kill_control = true; notifier = notifier_gone })
  polls : s.toggler ≡ polling → s.kill_control ≡ false → Step s (record s { toggler = reading })
  reads :
      {n : ℕ}
      → s.toggler ≡ reading
      → s.ctrl_pipe ≡ suc n
      → Step s (record s { ctrl_pipe = n; toggler = toggling })
  -- the read does not block: on an empty pipe it fails, and the loop goes on
  finds_none : s.toggler ≡ reading → s.ctrl_pipe ≡ 0 → Step s (record s { toggler = polling })
  toggles : s.toggler ≡ toggling → Step s (toggle s)
  toggler_leaves :
      s.toggler ≡ polling → s.kill_control ≡ true → Step s (record s { toggler = toggler_gone })

-- The states that a run on `text` reaches.
pub data Reach (text : Bytes) : System → Type 0 where
  begin : Reach text (start text)
  next : {s t : System} → Reach text s → Step s t → Reach text t
