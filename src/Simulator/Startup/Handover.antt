-- ===== src/Simulator/Startup/Handover.antt =====
-- What the two programs make of the arguments that simulator.c prepares.
use advanced_systems_program.Prelude.{
  ℕ, suc, ◌+◌, ◌≤◌, ◌<◌, ◌^◌, ◌≡◌, refl, ap, ◌∙◌, arith, Bool, true, ◌&&◌, Option, none, some, List,
  [], ◌∷◌, map, ltb, length, all, drop, get_or, set, length-set, replicate, Option-cases, inl, inr,
  codes, ◌>>=◌, &&-eq-true,
}
use advanced_systems_program.Prelude.Int.{ℤ, pos, pos_part, neg_part}
use advanced_systems_program.CLib.{Bytes}
use advanced_systems_program.CLib.Strtol.{strtol, int_of, int_of_int}
use advanced_systems_program.CLib.Decimal.{less_or, decimal, strtol-decimal, length-decimal}
use advanced_systems_program.Simulator.Startup.{
  Opened, Ends, store, print_fd, print_fds, fill, make_args, driver_args, keyboard_args, argv_of,
  Fds, driver_init_fds, keyboard_init_fds, goes_on, driver_main, keyboard_main,
}

-- A descriptor, or a negative result, that three characters hold.
abbrev pub small : ℤ → Bool
small v = ltb (pos_part v) 1000 && ltb (neg_part v) 100

-- A C int.
abbrev pub is_int : ℤ → Bool
is_int v = ltb (pos_part v) (2 ^ 31) && ltb (neg_part v) (2 ^ 31 + 1)

small-print_fd : (v : ℤ) → small v ≡ true → print_fd v ≡ some (decimal v)
unfolding print_fd
small-print_fd v h = let l = length-decimal v (ground arith) (ground arith) in ground arith

small-print_fds : (vs : List ℤ) → all small vs ≡ true → print_fds vs ≡ some (map decimal vs)
unfolding print_fds
small-print_fds [] h = refl
small-print_fds (v ∷ vs) h =
    let (a, b) = &&-eq-true (small v) (all small vs) h in
    let p = small-print_fd v a in let q = small-print_fds vs b in cc

small-is_int : (v : ℤ) → small v ≡ true → is_int v ≡ true
small-is_int v h = ground arith

number-decimal : (v : ℤ) → is_int v ≡ true → int_of (strtol (decimal v)) ≡ v
number-decimal v h =
    ap int_of (strtol-decimal v (ground arith) (ground arith))
    ∙ int_of_int v (ground arith) (ground arith)

-- A text is read as the number that it was printed from.
reread : ℤ → ℤ
reread v = int_of (strtol (decimal v))

map-reread : (vs : List ℤ) → all is_int vs ≡ true → map reread vs ≡ vs
unfolding reread
map-reread [] h = refl
map-reread (v ∷ vs) h =
    let (a, b) = &&-eq-true (is_int v) (all is_int vs) h in
    let p = number-decimal v a in let q = map-reread vs b in cc

-- The descriptors in the order of the arguments, from the one for `int_fd` on.
abbrev fds_of : List ℤ → Fds
fds_of vs = record {
  int_fd = get_or vs 0 (pos 0);
  ack_fd = get_or vs 1 (pos 0);
  ctrl_fd = get_or vs 2 (pos 0);
  int_mutex_fd = get_or vs 6 (pos 0);
  led_buffer_fd = get_or vs 4 (pos 0);
  led_mutex_fd = pos 0;
  cond_var_fd = get_or vs 5 (pos 0);
}

-- Called with the decimal texts of eight C ints, keyboard.c takes each of them for the descriptor that
-- it stands for, but `led_buffer_fd` is the descriptor of the mutex, and `led_mutex_fd` stays 0.
keyboard_main-ints :
    (exe : Bytes) (text int ack ctrl buffer mutex cond lock : ℤ)
    → all is_int (text ∷ int ∷ ack ∷ ctrl ∷ buffer ∷ mutex ∷ cond ∷ lock ∷ []) ≡ true
    → keyboard_main
        (exe ∷ map decimal (text ∷ int ∷ ack ∷ ctrl ∷ buffer ∷ mutex ∷ cond ∷ lock ∷ []))
      ≡ some (
          goes_on (
            text,
            record {
              int_fd = int;
              ack_fd = ack;
              ctrl_fd = ctrl;
              int_mutex_fd = lock;
              led_buffer_fd = mutex;
              led_mutex_fd = pos 0;
              cond_var_fd = cond;
            },
          ))
unfolding keyboard_main keyboard_init_fds reread
keyboard_main-ints exe text int ack ctrl buffer mutex cond lock h =
    ap (λ vs. some (goes_on (get_or vs 0 (pos 0), fds_of (drop 1 vs))))
      (map-reread (text ∷ int ∷ ack ∷ ctrl ∷ buffer ∷ mutex ∷ cond ∷ lock ∷ []) h)

driver_main-ints :
    (exe : Bytes) (int ack ctrl buffer mutex cond lock : ℤ)
    → all is_int (int ∷ ack ∷ ctrl ∷ buffer ∷ mutex ∷ cond ∷ lock ∷ []) ≡ true
    → driver_main (exe ∷ map decimal (int ∷ ack ∷ ctrl ∷ buffer ∷ mutex ∷ cond ∷ lock ∷ []))
      ≡ some (
          goes_on (record {
            int_fd = int;
            ack_fd = ack;
            ctrl_fd = ctrl;
            int_mutex_fd = lock;
            led_buffer_fd = mutex;
            led_mutex_fd = pos 0;
            cond_var_fd = cond;
          }))
unfolding driver_main driver_init_fds reread
driver_main-ints exe int ack ctrl buffer mutex cond lock h =
    ap (λ vs. some (goes_on (fds_of vs)))
      (map-reread (int ∷ ack ∷ ctrl ∷ buffer ∷ mutex ∷ cond ∷ lock ∷ []) h)

small-all_int : (vs : List ℤ) → all small vs ≡ true → all is_int vs ≡ true
small-all_int [] h = refl
small-all_int (v ∷ vs) h =
    let (a, b) = &&-eq-true (small v) (all small vs) h in
    let p = small-is_int v a in let q = small-all_int vs b in cc

-- The descriptors that the driver is given.
abbrev pub for_driver : Ends → Opened → List ℤ
for_driver e o =
    e.int_read ∷ e.ack_read ∷ e.ctrl_write ∷ o.led_buffer ∷ o.led_mutex ∷ o.cond_var ∷ o.int_mutex
    ∷ []

-- If their texts fit in the arrays of simulator.c, driver_simulator.c gets the ends of the pipes, the
-- condition variable and the mutex of the interrupts as they were opened, but its `led_buffer_fd` is
-- the descriptor of the mutex, and its `led_mutex_fd` stays 0.
pub driver_main-driver_args :
    (e : Ends) (o : Opened)
    → all small (for_driver e o) ≡ true
    → (driver_args e o >>= λ args. driver_main (argv_of args))
      ≡ some (
          goes_on (record {
            int_fd = e.int_read;
            ack_fd = e.ack_read;
            ctrl_fd = e.ctrl_write;
            int_mutex_fd = o.int_mutex;
            led_buffer_fd = o.led_mutex;
            led_mutex_fd = pos 0;
            cond_var_fd = o.cond_var;
          }))
unfolding driver_args make_args fill argv_of
driver_main-driver_args e o h =
    let p = small-print_fds (for_driver e o) h in
    rw (p) (
      driver_main-ints (codes "./driver_simulator") e.int_read e.ack_read e.ctrl_write o.led_buffer
        o.led_mutex o.cond_var o.int_mutex (small-all_int (for_driver e o) h))

store-some :
    (i : ℕ) (arg : Option Bytes) (args : List (Option Bytes))
    → i < length args
    → store i arg args ≡ some (set args i arg)
store-some i arg args h = ground arith

store-none :
    (i : ℕ) (arg : Option Bytes) (args : List (Option Bytes))
    → length args ≤ i
    → store i arg args ≡ none
store-none i arg args h = ground arith

-- The NULL behind the arguments goes over the end of an array that they fill.
fill-overruns :
    (i : ℕ) (ts : List Bytes) (args : List (Option Bytes))
    → length args ≤ i + length ts
    → fill i ts args ≡ none
unfolding fill
fill-overruns i [] args h = store-none i none args (omega arith)
fill-overruns i (t ∷ ts) args h = elim (less_or i (length args)) [
  | inl l ↦
      let s = length-set args i (some t) in
      ap (λ o. o >>= fill (suc i) ts) (store-some i (some t) args l)
      ∙ fill-overruns (suc i) ts (set args i (some t)) (omega arith)
  | inr l ↦ ap (λ o. o >>= fill (suc i) ts) (store-none i (some t) args l)
]

print_fds-length : (vs : List ℤ) (ts : List Bytes) → print_fds vs ≡ some ts → length ts ≡ length vs
unfolding print_fds
print_fds-length [] ts h = ground arith
print_fds-length (v ∷ vs) ts h = elim (Option-cases (print_fd v)) [
  | inl p ↦ ground arith
  | inr (t, p) ↦ elim (Option-cases (print_fds vs)) [
    | inl q ↦ ground arith
    | inr (us, q) ↦ let i = print_fds-length vs us q in ground arith
  ]
]

-- Whatever the descriptors, simulator.c does not come to start keyboard.c: a text runs over its array,
-- or the NULL behind the arguments over theirs.
keyboard_args-overruns : (e : Ends) (o : Opened) → keyboard_args e o ≡ none
unfolding keyboard_args make_args
keyboard_args-overruns e o =
    overruns
      (e.text ∷ e.int_write ∷ e.ack_write ∷ e.ctrl_read ∷ o.led_buffer ∷ o.led_mutex ∷ o.cond_var
        ∷ o.int_mutex ∷ [])
      refl
  where
    overruns : (vs : List ℤ) → length vs ≡ 8 → make_args (codes "./keyboard") vs ≡ none
    overruns vs h = elim (Option-cases (print_fds vs)) [
      | inl p ↦ rw (p) refl
      | inr (ts, p) ↦
          let l = print_fds-length vs ts p in
          rw (p) (fill-overruns 0 (codes "./keyboard" ∷ ts) (replicate 9 none) (omega arith))
    ]
