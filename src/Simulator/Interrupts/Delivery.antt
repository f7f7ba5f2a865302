-- ===== src/Simulator/Interrupts/Delivery.antt =====
-- What the driver prints, and that it waits for more for ever.
use advanced_systems_program.Prelude.{
  ℕ, ◌≡◌, ◌⊎◌, refl, sym, ap, ◌∙◌, arith, Bool, true, false, [], ◌∷◌, ◌++◌,
}
use mathlib.Core.List.{append_assoc}
use advanced_systems_program.CLib.{Bytes}
use advanced_systems_program.Simulator.Interrupts.{
  unlocked, sent, faulted, receiving, Writers, held, System, start, Step, lock, fault, send, finish,
  control_keyboard, exit_keyboard, receive, read_end, control_driver, exit_driver, close_simulator,
  Reach, here, next,
}

-- The driver, which holds the write end itself, reads on, and no byte is lost.
record IsSound (text : Bytes) (s : System) : Type 0 where
  in_order : s.printed ++ (s.pipe ++ s.text) ≡ text
  reading : s.receiver ≡ receiving
  holding : s.writers.driver ≡ true
  finished : s.sender ≡ sent → s.text ≡ []

held-driver : (w : Writers) → w.driver ≡ true → held w ≡ true
held-driver w h = ground arith

Step-IsSound :
    {capacity : ℕ} {text : Bytes} {s t : System}
    → IsSound text s
    → Step capacity s t
    → IsSound text t
Step-IsSound h (lock p q) = ground arith
Step-IsSound h (fault p q) = ground arith
Step-IsSound {s = s} h (send {c} {cs} p q r) = record {
  in_order =
      ap (λ x. s.printed ++ x) (append_assoc s.pipe (c ∷ []) cs)
      ∙ ap (λ x. s.printed ++ (s.pipe ++ x)) (sym q)
      ∙ h.in_order;
  reading = h.reading;
  holding = h.holding;
  finished = ground arith;
}
Step-IsSound h (finish p q) = ground arith
Step-IsSound h (control_keyboard p) = ground arith
Step-IsSound h (exit_keyboard p q r) = ground arith
Step-IsSound {s = s} h (receive {c} {cs} p q) = record {
  in_order =
      append_assoc s.printed (c ∷ []) (cs ++ s.text)
      ∙ ap (λ x. s.printed ++ (x ++ s.text)) (sym q)
      ∙ h.in_order;
  reading = h.reading;
  holding = h.holding;
  finished = h.finished;
}
Step-IsSound {s = s} h (read_end p q r) = let d = held-driver s.writers h.holding in ground arith
Step-IsSound h (control_driver p) = ground arith
Step-IsSound h (exit_driver p q r) = ground arith
Step-IsSound h (close_simulator p) = ground arith

Reach-IsSound :
    {capacity : ℕ} {mapped : Bool} {text : Bytes} {s : System}
    → Reach capacity (start mapped text) s
    → IsSound text s
Reach-IsSound here = record {
  in_order = refl;
  reading = refl;
  holding = refl;
  finished = λ p. ground arith;
}
Reach-IsSound (next r st) = Step-IsSound (Reach-IsSound r) st

-- Whether keyboard.c has mapped the mutex or not, in every state the bytes that the driver has printed, those in the pipe and those left in the file
-- are the text in its order; the driver has not come to the end of its loop, and holds the write end of
-- the pipe that it reads.
pub driver-never_ends :
    (capacity : ℕ) (mapped : Bool) (text : Bytes) {s : System}
    → Reach capacity (start mapped text) s
    → (s.printed ++ (s.pipe ++ s.text) ≡ text)
      × (s.receiver ≡ receiving)
      × (s.writers.driver ≡ true)
driver-never_ends capacity mapped text r =
    let h = Reach-IsSound r in (h.in_order, h.reading, h.holding)

-- Without the mutex keyboard.c does not come to send anything.
record IsSilent (text : Bytes) (s : System) : Type 0 where
  unmapped : s.mapped ≡ false
  before : (s.sender ≡ unlocked) ⊎ (s.sender ≡ faulted)
  empty : s.pipe ≡ []
  unread : s.text ≡ text
  unprinted : s.printed ≡ []
