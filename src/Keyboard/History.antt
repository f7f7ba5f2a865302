-- ===== src/Keyboard/History.antt =====
-- The caps lock states that the keyboard keeps.
use advanced_systems_program.Prelude.{Bool, false, not, List, [], ◌∷◌, ◌++◌, Bool-cases, inl, inr}
use advanced_systems_program.CLib.{Bytes}
use advanced_systems_program.Keyboard.System.{
  System, dispatch, toggle, is_caps_key, Step, sends, sees_end, marks_end, sender_kills, receives,
  dispatches, signals, joins, finds_nothing, leaves, receiver_kills, closes, tests, notifies,
  notifier_kills, polls, reads, finds_none, toggles, toggler_leaves, Reach, begin, next,
}

-- ON, OFF, ON, … : a history that ends with `caps`, or is empty with `caps` off.
pub data Alternating : List Bool → Bool → Type 0 where
  none_yet : Alternating [] false
  one_more : {bs : List Bool} {b : Bool} → Alternating bs b → Alternating (bs ++ not b ∷ []) (not b)

Step-Alternating :
    {s t : System}
    → Alternating s.caps_history s.caps_lock
    → Step s t
    → Alternating t.caps_history t.caps_lock
Step-Alternating h (sends p q r e) = h
Step-Alternating h (sees_end p q r e) = h
Step-Alternating h (marks_end p q) = h
Step-Alternating h (sender_kills p) = h
Step-Alternating h (receives p q) = h
Step-Alternating {s} h (dispatches {c} p) = elim (Bool-cases (is_caps_key c)) [
  | inl e ↦ unfold dispatch in rw e h
  | inr e ↦ unfold dispatch in rw e h
]
Step-Alternating h (signals p) = h
Step-Alternating h (joins p) = h
Step-Alternating h (finds_nothing p q r) = h
Step-Alternating h (leaves p q r) = h
Step-Alternating h (receiver_kills p) = h
Step-Alternating h (closes p) = h
Step-Alternating h (tests p q) = h
Step-Alternating h (notifies p q) = h
Step-Alternating h (notifier_kills p q) = h
Step-Alternating h (polls p q) = h
Step-Alternating h (reads p q) = h
Step-Alternating h (finds_none p q) = h
Step-Alternating {s} h (toggles p) = elim (Bool-cases s.led_buff) [
  | inl e ↦ unfold toggle in rw e (one_more h)
  | inr e ↦ unfold toggle in rw e h
]
Step-Alternating h (toggler_leaves p q) = h

-- In every state of a run `caps_history` alternates, beginning with ON, and its last entry is the
-- state of `CAPS_LOCK`, which is off if there is none.
pub caps_history-Alternating :
    {text : Bytes} {s : System} → Reach text s → Alternating s.caps_history s.caps_lock
caps_history-Alternating begin = none_yet
caps_history-Alternating (next r st) = Step-Alternating (caps_history-Alternating r) st
