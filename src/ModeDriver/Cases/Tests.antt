-- ===== src/ModeDriver/Cases/Tests.antt =====
-- Runs of case1.cpp, case3.cpp and case4.cpp.
use advanced_systems_program.Prelude.{◌≤◌, ◌<◌, ◌≡◌, refl, arith, List, [], ◌∷◌}
use advanced_systems_program.ModeDriver.Device.{
  Device, mode2, initial, e2_open_section, takes_sem2, ioctl_mode1, ioctl_mode2, switch_to_mode1,
  switch_to_mode2, mode1_in, mode2_in,
}
use advanced_systems_program.ModeDriver.Cases.{
  Call, open_device, to_mode1, to_mode2, close_device, create, ready, opening, waiting2, Thread, at,
  open_waits, open_returns, open_enters, mode2_done, mode1_waits, State, Step, act, spawn, begin,
  Reach, here, next, programs1, main1, programs3, main3, programs4, main4,
}
use advanced_systems_program.ModeDriver.Cases.Counts.{tally}
use advanced_systems_program.ModeDriver.Cases.Endless.{unfinished, owed, program-never_ends}
use advanced_systems_program.ModeDriver.Cases.Asleep.{asleep-no_step}
use advanced_systems_program.ModeDriver.Cases.Kept.{kept_open-mode2}

-- `sem1` as most steps find it.
free : 0 < 1
free = omega arith

abbrev state : Device → List Thread → State
state d ws = record { dev = d; threads = ws }

abbrev over : Thread
over = at 0 ready []

-- case1.cpp: a thread has the device open and waits in its second `open`.
abbrev one_thread : List Thread
one_thread = at 0 ready (create 0 ∷ []) ∷ []

abbrev opens_again : State
opens_again =
    state (record initial { count1 = 2; sem2 = 0 })
      (at 1 opening (open_device ∷ []) ∷ at 0 ready (create 0 ∷ []) ∷ [])

case1_run : Reach programs1 (begin main1) opens_again
unfolding e2_open_section takes_sem2
case1_run =
    let r1 = next here (spawn 0 0 (create 0 ∷ []) [] []) in
    let r2 = next r1 (act [] one_thread (open_waits free refl)) in
    let r3 = next r2 (act [] one_thread (open_enters (ground arith))) in
    next r3 (act [] one_thread (open_waits free refl))

program-never_ends_example : 0 < tally unfinished opens_again.threads
program-never_ends_example =
    program-never_ends programs1 main1 (λ k. refl) refl (ground arith) case1_run

-- case3.cpp: both threads sleep in E2_IOCMODE1.
abbrev first : Thread
first = at 0 ready (open_device ∷ to_mode2 ∷ to_mode1 ∷ [])

abbrev second : Thread
second = at 0 ready (open_device ∷ to_mode1 ∷ [])

abbrev both_asleep : State
both_asleep =
    state (record initial { mode = mode2; count2 = 2 })
      (at 0 waiting2 [] ∷ at 0 waiting2 [] ∷ over ∷ [])

case3_run : Reach programs3 (begin main3) both_asleep
unfolding e2_open_section takes_sem2 ioctl_mode2 mode2_in switch_to_mode2 ioctl_mode1 mode1_in
    switch_to_mode1
case3_run =
    let r1 = next here (spawn 0 0 (create 1 ∷ []) [] []) in
    let r2 = next r1 (spawn 0 1 [] (first ∷ []) []) in
    let r3 = next r2 (act (second ∷ []) (over ∷ []) (open_waits free refl)) in
    let r4 = next r3 (act (second ∷ []) (over ∷ []) (open_enters (ground arith))) in
    let r5 = next r4 (act (second ∷ []) (over ∷ []) (mode2_done free refl)) in
    let r6 = next r5 (act [] (at 1 ready (to_mode1 ∷ []) ∷ over ∷ []) (open_returns free refl)) in
    let r7 = next r6 (act (at 1 ready (to_mode1 ∷ []) ∷ []) (over ∷ []) (mode1_waits free refl)) in
    next r7 (act [] (at 0 waiting2 [] ∷ over ∷ []) (mode1_waits free refl))

asleep-no_step_example :
    (both_asleep.dev.sem1 ≡ 1)
    × (both_asleep.dev.sem2 ≡ 1)
    × ¬ Step programs3 both_asleep (begin main3)
asleep-no_step_example = asleep-no_step programs3 main3 (begin main3) case3_run refl (ground arith)

-- case4.cpp: `main` has gone to MODE2, and a thread that it created sleeps in E2_IOCMODE1.
abbrev creates : List Call
creates = create 0 ∷ create 0 ∷ create 0 ∷ create 0 ∷ []

abbrev main_in_mode2 : State
main_in_mode2 =
    state (record initial { mode = mode2; count2 = 1 }) (at 1 ready (create 0 ∷ creates) ∷ [])

abbrev one_asleep : State
one_asleep =
    state (record initial { mode = mode2; count2 = 2 })
      (at 0 waiting2 (close_device ∷ []) ∷ at 1 ready creates ∷ [])

main4_run : Reach programs4 (begin main4) main_in_mode2
unfolding e2_open_section takes_sem2 ioctl_mode2 mode2_in switch_to_mode2
main4_run =
    let r1 = next here (act [] [] (open_waits free refl)) in
    let r2 = next r1 (act [] [] (open_enters (ground arith))) in
    next r2 (act [] [] (mode2_done free refl))

case4_run : Reach programs4 main_in_mode2 one_asleep
unfolding e2_open_section takes_sem2 ioctl_mode1 mode1_in switch_to_mode1
case4_run =
    let r1 = next here (spawn 1 0 creates [] []) in
    let r2 = next r1 (act [] (at 1 ready creates ∷ []) (open_returns free refl)) in
    next r2 (act [] (at 1 ready creates ∷ []) (mode1_waits free refl))

kept_open-mode2_example :
    (one_asleep.dev.mode ≡ mode2)
    × (tally owed main_in_mode2.threads ≤ tally owed one_asleep.threads)
kept_open-mode2_example = kept_open-mode2 programs4 main4 main4_run refl (ground arith) case4_run
