-- ===== src/Keyboard/Release.antt =====
-- The end of a run: the threads of the driver do not wait for each other forever.
use advanced_systems_program.Prelude.{◌≡◌, Bool, true, false, arith}
use advanced_systems_program.CLib.{Bytes}
use advanced_systems_program.Keyboard.System.{
  System, Receiver, leaving, closing, receiver_gone, awaiting, dispatch, toggle, Step, sends,
  sees_end, marks_end, sender_kills, receives, dispatches, signals, joins, finds_nothing, leaves,
  receiver_kills, closes, tests, notifies, notifier_kills, polls, reads, finds_none, toggles,
  toggler_leaves, Reach, begin, next,
}

-- The receiver has set `send_control` for the last time.
abbrev pub is_closing : Receiver → Bool
is_closing closing = true
is_closing receiver_gone = true
is_closing r = false

abbrev is_last : Receiver → Bool
is_last leaving = true
is_last r = is_closing r

record Released (s : System) : Type 0 where
  killed : is_last s.receiver ≡ true → s.kill_thread ≡ true
  signalled : is_closing s.receiver ≡ true → s.notifier ≡ awaiting → s.send_control ≡ true

Step-Released : {s t : System} → Released s → Step s t → Released t
unfolding dispatch toggle
Step-Released h (sends p q r e) = ground arith
Step-Released h (sees_end p q r e) = ground arith
Step-Released h (marks_end p q) = ground arith
Step-Released h (sender_kills p) = ground arith
Step-Released h (receives p q) = ground arith
Step-Released h (dispatches p) = ground arith
Step-Released h (signals p) = ground arith
Step-Released h (joins p) = ground arith
Step-Released h (finds_nothing p q r) = h
Step-Released h (leaves p q r) = ground arith
Step-Released h (receiver_kills p) = ground arith
Step-Released h (closes p) = ground arith
Step-Released h (tests p q) = ground arith
Step-Released h (notifies p q) = ground arith
Step-Released h (notifier_kills p q) = ground arith
Step-Released h (polls p q) = ground arith
Step-Released h (reads p q) = ground arith
Step-Released h (finds_none p q) = ground arith
Step-Released h (toggles p) = ground arith
Step-Released h (toggler_leaves p q) = ground arith

Reach-Released : {text : Bytes} {s : System} → Reach text s → Released s
Reach-Released begin = record { killed = λ h. ground arith; signalled = λ h e. ground arith }
Reach-Released (next r st) = Step-Released (Reach-Released r) st

-- Once `interrupt_driver_thread` has set `send_control` for the last time, a control thread that
-- waits for `send_control` finds it set, and the loop that it goes back to finds `*kill_thread` set.
pub notifier-released :
    {text : Bytes} {s : System}
    → Reach text s
    → is_closing s.receiver ≡ true
    → s.notifier ≡ awaiting
    → (s.send_control ≡ true) × (s.kill_thread ≡ true)
notifier-released {s = s} r c w =
    let h = Reach-Released r in (h.signalled c w, h.killed (last s.receiver c))
  where
    last : (r : Receiver) → is_closing r ≡ true → is_last r ≡ true
    last r e = ground arith
