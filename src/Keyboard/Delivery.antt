-- ===== src/Keyboard/Delivery.antt =====
-- What reaches the screen: the text of the file up to the case of its letters, in order, nothing
-- lost or doubled.
use mathlib.Core.List.{append-nil, append_assoc}
use advanced_systems_program.Prelude.{
  ℕ, ◌+◌, ◌≤◌, ◌≡◌, ◌≢◌, refl, sym, ap, ◌∙◌, Bool, true, false, ◌&&◌, ◌==◌, [], ◌∷◌, ◌++◌,
  if◌then◌else◌, leb, length, length-append, arith, Bool-cases, inl, inr,
}
use advanced_systems_program.Prelude.Int.{pos, negsuc}
use advanced_systems_program.CLib.{Bytes}
use advanced_systems_program.Keyboard.System.{
  System, Sender, sending, Receiver, receiving, dispatching, signalling, joined, leaving, closing,
  receiver_gone, shift, is_caps_key, is_printed, dispatch, toggle, start, Step, sends, sees_end,
  marks_end, sender_kills, receives, dispatches, signals, joins, finds_nothing, leaves,
  receiver_kills, closes, tests, notifies, notifier_kills, polls, reads, finds_none, toggles,
  toggler_leaves, Reach, begin, next,
}

abbrev pub lower : ℕ → ℕ
lower c = if leb 65 c && leb c 90 then c + 32 else c

-- The bytes that are to be printed, in lower case.
unfoldable pub plain : Bytes → Bytes
plain [] = []
plain (c ∷ cs) = if is_printed c then lower c ∷ plain cs else plain cs

plain-append : (xs ys : Bytes) → plain (xs ++ ys) ≡ plain xs ++ plain ys
unfolding plain
plain-append [] ys = refl
plain-append (c ∷ cs) ys = elim (Bool-cases (is_printed c)) [
  | inl e ↦ rw e (ap (◌∷◌ (lower c)) (plain-append cs ys))
  | inr e ↦ rw e (plain-append cs ys)
]

shift-is_printed : (b : Bool) (c : ℕ) → is_printed (shift b c) ≡ is_printed c
unfolding shift is_printed is_caps_key
shift-is_printed b c = ground arith

lower-shift : (b : Bool) (c : ℕ) → lower (shift b c) ≡ lower c
unfolding shift
lower-shift b c = ground arith

plain-shift : (b : Bool) (c : ℕ) (cs : Bytes) → plain (shift b c ∷ cs) ≡ plain (c ∷ cs)
unfolding plain
plain-shift b c cs = rw (shift-is_printed b c, lower-shift b c) refl

-- The byte in the hands of `usb_kbd_irq`.
abbrev in_hand : Receiver → Bytes
in_hand (dispatching c) = c ∷ []
in_hand r = []

-- 1 while the receiver has not acknowledged a byte that it took.
abbrev busy : Receiver → ℕ
busy (dispatching c) = 1
busy signalling = 1
busy joined = 1
busy r = 0

abbrev is_sending : Sender → Bool
is_sending sending = true
is_sending r = false

abbrev pub has_left : Receiver → Bool
has_left leaving = true
has_left closing = true
has_left receiver_gone = true
has_left r = false

-- The bytes and the receiver are in step: at most one byte is on its way.
record InStep (s : System) : Type 0 where
  one : length s.int_pipe + busy s.receiver ≤ 1
  calm : s.done_reading ≢ pos 0 → length s.int_pipe + busy s.receiver ≡ 0
  over : is_sending s.sender ≡ false → (s.file ≡ []) × (length s.int_pipe + busy s.receiver ≡ 0)
  minus : s.done_reading ≡ negsuc 0 → is_sending s.sender ≡ false
  left : has_left s.receiver ≡ true → is_sending s.sender ≡ false

Step-InStep : {s t : System} → InStep s → Step s t → InStep t
unfolding dispatch toggle
Step-InStep {s} h (sends {c} {cs} p q r e) =
    ground (arith, length-append s.int_pipe (shift s.caps_lock c ∷ []))
Step-InStep h (sees_end p q r e) = ground arith
Step-InStep h (marks_end p q) = ground arith
Step-InStep h (sender_kills p) = ground arith
Step-InStep h (receives p q) = ground arith
Step-InStep h (dispatches p) = ground arith
Step-InStep h (signals p) = ground arith
Step-InStep h (joins p) = ground arith
Step-InStep h (finds_nothing p q r) = h
Step-InStep h (leaves p q r) = ground arith
Step-InStep h (receiver_kills p) = ground arith
Step-InStep h (closes p) = ground arith
Step-InStep h (tests p q) = ground arith
Step-InStep h (notifies p q) = ground arith
Step-InStep h (notifier_kills p q) = ground arith
Step-InStep h (polls p q) = ground arith
Step-InStep h (reads p q) = ground arith
Step-InStep h (finds_none p q) = ground arith
Step-InStep h (toggles p) = ground arith
Step-InStep h (toggler_leaves p q) = ground arith

start-InStep : (text : Bytes) → InStep (start text)
start-InStep text = record {
  one = ground arith;
  calm = λ h. refl;
  over = λ h. ground arith;
  minus = λ h. ground arith;
  left = λ h. ground arith;
}

Reach-InStep : {text : Bytes} {s : System} → Reach text s → InStep s
Reach-InStep {text} begin = start-InStep text
Reach-InStep (next r st) = Step-InStep (Reach-InStep r) st

-- What is still to reach the screen.
abbrev ahead : System → Bytes
ahead s = in_hand s.receiver ++ (s.int_pipe ++ s.file)

-- All of it, in lower case.
abbrev whole : System → Bytes
whole s = plain s.screen ++ plain (ahead s)

in_hand_nil : (r : Receiver) → busy r ≡ 0 → in_hand r ≡ []
in_hand_nil receiving h = refl
in_hand_nil (dispatching c) h = ground arith
in_hand_nil signalling h = refl
in_hand_nil joined h = refl
in_hand_nil leaving h = refl
in_hand_nil closing h = refl
in_hand_nil receiver_gone h = refl

nil_of_length : (xs : Bytes) → length xs ≡ 0 → xs ≡ []
nil_of_length [] h = refl
nil_of_length (x ∷ xs) h = ground arith

plain-printed :
    (c : ℕ) (xs ys : Bytes)
    → is_printed c ≡ true
    → plain (xs ++ c ∷ []) ++ plain ys ≡ plain xs ++ plain (c ∷ ys)
plain-printed c xs ys h =
    ap (λ z. z ++ plain ys) (plain-append xs (c ∷ []))
    ∙ append_assoc (plain xs) (plain (c ∷ [])) (plain ys)
    ∙ ap (λ z. plain xs ++ z) (unfold plain in rw h refl)

plain-unprinted : (c : ℕ) (ys : Bytes) → is_printed c ≡ false → plain (c ∷ ys) ≡ plain ys
unfolding plain
plain-unprinted c ys h = rw h refl

caps_key-unprinted : (c : ℕ) → is_caps_key c ≡ true → is_printed c ≡ false
unfolding is_printed
caps_key-unprinted c h = rw h (ground arith)

hash-unprinted : (c : ℕ) → (c == b'#') ≡ true → is_printed c ≡ false
unfolding is_printed
hash-unprinted c h = rw h refl

other-printed : (c : ℕ) → is_caps_key c ≡ false → (c == b'#') ≡ false → is_printed c ≡ true
unfolding is_printed
other-printed c h h' = rw (h, h') refl

dispatch-whole : (c : ℕ) (s : System) → s.receiver ≡ dispatching c → whole (dispatch c s) ≡ whole s
unfolding dispatch
dispatch-whole c s h = elim (Bool-cases (is_caps_key c)) [
  | inl k ↦
      rw (k, h) (ap (λ z. plain s.screen ++ z) (sym (plain-unprinted c _ (caps_key-unprinted c k))))
  | inr k ↦ elim (Bool-cases (c == b'#')) [
    | inl e ↦
        rw (k, h, e)
          (ap (λ z. plain s.screen ++ z) (sym (plain-unprinted c _ (hash-unprinted c e))))
    | inr e ↦ rw (k, h, e) (plain-printed c s.screen _ (other-printed c k e))
  ]
]

Step-whole : {s t : System} → InStep s → Step s t → whole t ≡ whole s
unfolding toggle
Step-whole {s} h (sends {c} {cs} p q r e) =
    let z = h.calm r in
    rw (in_hand_nil s.receiver (omega arith), nil_of_length s.int_pipe (omega arith), e)
      (ap (λ z. plain s.screen ++ z) (plain-shift s.caps_lock c cs))
Step-whole h (sees_end p q r e) = refl
Step-whole h (marks_end p q) = refl
Step-whole h (sender_kills p) = refl
Step-whole {s} h (receives p q) = rw (p, q) refl
Step-whole {s} h (dispatches {c} p) = dispatch-whole c s p
Step-whole h (signals p) = rw p refl
Step-whole h (joins p) = rw p refl
Step-whole h (finds_nothing p q r) = refl
Step-whole h (leaves p q r) = rw p refl
Step-whole h (receiver_kills p) = rw p refl
Step-whole h (closes p) = rw p refl
Step-whole h (tests p q) = refl
Step-whole h (notifies p q) = refl
Step-whole h (notifier_kills p q) = refl
Step-whole h (polls p q) = refl
Step-whole h (reads p q) = refl
Step-whole h (finds_none p q) = refl
Step-whole {s} h (toggles p) = elim (Bool-cases s.led_buff) [
  | inl e ↦ rw e refl
  | inr e ↦ rw e refl
]
Step-whole h (toggler_leaves p q) = refl

Reach-whole : {text : Bytes} {s : System} → Reach text s → whole s ≡ plain text
Reach-whole begin = unfold plain in refl
Reach-whole (next r st) = Step-whole (Reach-InStep r) st ∙ Reach-whole r

-- In every state of a run, what stands on the screen is a prefix of the bytes of the text that are
-- to be printed (all but '#', '@' and '&'), both read in lower case; at most one byte is in the pipe.
pub screen-prefix :
    {text : Bytes} {s : System}
    → Reach text s
    → ((rest : Bytes) × (plain s.screen ++ rest ≡ plain text)) × (length s.int_pipe ≤ 1)
screen-prefix {text} {s} r =
    let one = (Reach-InStep r).one in ((plain (ahead s), Reach-whole r), omega arith)

has_left-idle : (r : Receiver) → has_left r ≡ true → in_hand r ≡ []
has_left-idle receiving h = refl
has_left-idle (dispatching c) h = ground arith
has_left-idle signalling h = refl
has_left-idle joined h = refl
has_left-idle leaving h = refl
has_left-idle closing h = refl
has_left-idle receiver_gone h = refl

-- Once `interrupt_driver_thread` has left its loop, all bytes of the text that are to be printed
-- stand on the screen, in order and up to their case.
pub screen_complete :
    {text : Bytes} {s : System}
    → Reach text s
    → has_left s.receiver ≡ true
    → plain s.screen ≡ plain text
screen_complete {text} {s} r gone =
    let h = Reach-InStep r in
    let over = h.over (h.left gone) in
    sym (append-nil (plain s.screen))
    ∙ ap (λ z. plain s.screen ++ z)
        (sym (
          rw
            (
              has_left-idle s.receiver gone,
              nil_of_length s.int_pipe (omega (arith, over.1)),
              over.0,
            )
            (unfold plain in refl)))
    ∙ Reach-whole r
