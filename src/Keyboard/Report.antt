-- ===== src/Keyboard/Report.antt =====
-- What `main` of keyboard_sim.c prints behind the threads: the caps lock states of its own process.
use advanced_systems_program.Prelude.{
  ℕ, zero, suc, ◌<◌, ◌≡◌, refl, sym, ap, ◌∙◌, arith, Bool, true, false, not, Option, none, some,
  List, [], ◌∷◌, ◌++◌, ltb, if◌then◌else◌, length, length-append, codes,
}
use mathlib.Core.List.{append_assoc, append-nil}
use advanced_systems_program.CLib.{Bytes}
use advanced_systems_program.Keyboard.System.{System, Reach}
use advanced_systems_program.Keyboard.History.{
  Alternating, none_yet, one_more, caps_history-Alternating,
}

abbrev history_size : ℕ
history_size = 4096

-- `if (caps_history[i]) { printf("ON "); } else { printf("OFF "); }`
unfoldable pub word : Bool → Bytes
word true = codes "ON "
word false = codes "OFF "

unfoldable pub words : List Bool → Bytes
unfolding word
words [] = []
words (b ∷ bs) = word b ++ words bs

-- `caps_history[caps_delim] = *led_buff` and the loop up to `caps_delim`. `none` is a store behind the
-- array. The keyboard process comes here with its history, the two others with an empty one.
unfoldable pub report : List Bool → Option Bytes
unfolding words
report history =
    if ltb (length history) history_size
    then some (codes "\n" ++ (words history ++ codes "\n"))
    else none

-- `n` words in turn.
unfoldable pub in_turn : Bool → ℕ → Bytes
unfolding word
in_turn b zero = []
in_turn b (suc n) = word b ++ in_turn (not b) n

turned : ℕ → Bool → Bool
turned zero b = b
turned (suc n) b = turned n (not b)

words-append : (bs : List Bool) (b : Bool) → words (bs ++ b ∷ []) ≡ words bs ++ word b
unfolding words
words-append [] b = append-nil (word b)
words-append (x ∷ bs) b =
    ap (λ y. word x ++ y) (words-append bs b) ∙ sym (append_assoc (word x) (words bs) (word b))

in_turn-last : (b : Bool) (n : ℕ) → in_turn b (suc n) ≡ in_turn b n ++ word (turned n b)
unfolding in_turn turned
in_turn-last b zero = append-nil (word b)
in_turn-last b (suc n) =
    ap (λ y. word b ++ y) (in_turn-last (not b) n)
    ∙ sym (append_assoc (word b) (in_turn (not b) n) (word (turned n (not b))))

turned-not : (n : ℕ) (b : Bool) → turned n (not b) ≡ not (turned n b)
unfolding turned
turned-not zero b = refl
turned-not (suc n) b = turned-not n (not b)

length-one_more : (bs : List Bool) (b : Bool) → length (bs ++ b ∷ []) ≡ suc (length bs)
length-one_more bs b = length-append bs (b ∷ []) ∙ omega arith

Alternating-turned : {bs : List Bool} {b : Bool} → Alternating bs b → b ≡ turned (length bs) false
unfolding turned
Alternating-turned none_yet = refl
Alternating-turned (one_more {bs} {b} h) =
    let i = Alternating-turned h in
    ap not i
    ∙ sym (turned-not (length bs) false)
    ∙ sym (ap (λ n. turned n false) (length-one_more bs (not b)))

Alternating-in_turn :
    {bs : List Bool} {b : Bool} → Alternating bs b → words bs ≡ in_turn true (length bs)
unfolding words in_turn
Alternating-in_turn none_yet = refl
Alternating-in_turn (one_more {bs} {b} h) =
    let n = length bs in
    let last : word (not b) ≡ word (turned n true) =
      ap (λ c. word (not c)) (Alternating-turned h) ∙ ap word (sym (turned-not n false)) in
    words-append bs (not b)
    ∙ ap (λ y. words bs ++ y) last
    ∙ ap (λ y. y ++ word (turned n true)) (Alternating-in_turn h)
    ∙ sym (in_turn-last true n)
    ∙ sym (ap (in_turn true) (length-one_more bs (not b)))

-- From every state of a run in which `caps_history` has fewer than 4096 entries, the keyboard process
-- would print ON and OFF in turn, from ON on, one word for each entry.
pub report-in_turn :
    {text : Bytes} {s : System}
    → Reach text s
    → length s.caps_history < 4096
    → report s.caps_history
      ≡ some (codes "\n" ++ (in_turn true (length s.caps_history) ++ codes "\n"))
unfolding report
report-in_turn {s = s} r h =
    let w = Alternating-in_turn (caps_history-Alternating r) in ground arith
