-- ===== src/Keyboard/Tests.antt =====
-- A run of the simulator on a file of one letter, and the theorems at its end.
use advanced_systems_program.Prelude.{◌≡◌, refl, true, arith, some, [], ◌∷◌, ◌++◌, codes}
use advanced_systems_program.Prelude.Int.{pos, negsuc}
use advanced_systems_program.CLib.{Bytes}
use advanced_systems_program.Keyboard.System.{
  System, killing, joined, leaving, closing, awaiting, dispatch, shift, is_caps_key, start, sends,
  sees_end, marks_end, receives, dispatches, signals, notifies, polls, reads, toggles, toggle,
  written, joins, leaves, tests, Reach, begin, next,
}
use advanced_systems_program.Keyboard.Report.{report, in_turn, report-in_turn}
use advanced_systems_program.Keyboard.Delivery.{plain, screen_complete}

abbrev text : Bytes
text = codes "a"

abbrev sent : System
sent = record (start text) { file = []; done_reading = pos 0; int_pipe = codes "a" }

text_sent : Reach text sent
unfolding shift
text_sent = next begin (sends refl refl (ground arith) refl)

abbrev shown : System
shown = record (start text) {
  file = [];
  done_reading = pos 0;
  screen = codes "a";
  receiver = joined;
}

text_shown : Reach text shown
unfolding dispatch is_caps_key
text_shown = next (next text_sent (receives refl refl)) (dispatches refl)

abbrev over : System
over = record (start text) {
  file = [];
  done_reading = negsuc 0;
  screen = codes "a";
  sender = killing;
  notifier = awaiting;
}

text_over : Reach text over
text_over =
    next
      (next (next (next text_shown (joins refl)) (tests refl refl))
        (sees_end refl refl (ground arith) refl))
      (marks_end refl refl)

abbrev left : System
left = record over { kill_thread = true; receiver = leaving }

text_left : Reach text left
text_left = next text_over (leaves refl refl refl)

screen_complete_example : plain left.screen ≡ plain text
screen_complete_example = screen_complete text_left refl

abbrev last_signal : System
last_signal = record left { send_control = true; receiver = closing }

-- A file that switches the caps lock on.
abbrev switch : Bytes
switch = codes "@"

abbrev switched : System
switched = record (start switch) {
  file = [];
  done_reading = pos 0;
  led_buff = true;
  caps_lock = true;
  caps_history = true ∷ [];
  receiver = joined;
}

switch_run : Reach switch switched
unfolding shift dispatch is_caps_key toggle written
switch_run =
    let r1 = next begin (sends refl refl (ground arith) refl) in
    let r2 = next r1 (receives refl refl) in
    let r3 = next r2 (dispatches refl) in
    let r4 = next r3 (signals refl) in
    let r5 = next r4 (tests refl refl) in
    let r6 = next r5 (notifies refl refl) in
    let r7 = next (next r6 (polls refl refl)) (reads refl refl) in next r7 (toggles refl)

report-in_turn_example : report (true ∷ []) ≡ some (codes "\n" ++ (in_turn true 1 ++ codes "\n"))
report-in_turn_example = report-in_turn switch_run (ground arith)
