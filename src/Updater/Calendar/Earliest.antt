-- ===== src/Updater/Calendar/Earliest.antt =====
-- `searchEarliestEventByDate` finds an event of the date that no event of the date is earlier than.
use advanced_systems_program.Prelude.{
  ◌≡◌, refl, sym, ap, ◌∙◌, Bool, true, false, not, ◌&&◌, ◌||◌, some, [], ◌∷◌, if◌then◌else◌, all,
  str_eq, eq_of_str_eq, arith, Bool-cases, Option-cases, &&-eq-true, inl, inr,
}
use advanced_systems_program.Prelude.Int.{ℤ, ltb_ℤ}
use advanced_systems_program.CLib.{Bytes}
use advanced_systems_program.Updater.Checks.{check_time}
use advanced_systems_program.Updater.Event.{Event}
use advanced_systems_program.Updater.Calendar.{
  Entry, Calendar, find, hours, minutes, compare_time, earliest_loop, search_earliest,
}

abbrev before : ℤ × ℤ → ℤ × ℤ → Bool
before (h, m) (k, n) = if ltb_ℤ h k then true else if ltb_ℤ k h then false else ltb_ℤ m n

abbrev clock : Bytes → ℤ × ℤ
clock t = (hours t, minutes t)

compare_time-before :
    (s t : Bytes)
    → check_time s ≡ true
    → check_time t ≡ true
    → compare_time s t ≡ before (clock s) (clock t)
unfolding compare_time
compare_time-before s t h k = ground arith

before_asymm : (s t : ℤ × ℤ) → before s t ≡ true → before t s ≡ false
before_asymm (h, m) (k, n) e = ground arith

before_trans : (s t u : ℤ × ℤ) → before s t ≡ false → before t u ≡ false → before s u ≡ false
before_trans (h, m) (k, n) (l, o) e f = ground arith

pub compare_time_irrefl : (s : Bytes) → compare_time s s ≡ false
unfolding compare_time
compare_time_irrefl s = ground arith

compare_time_asymm : (s t : Bytes) → compare_time s t ≡ true → compare_time t s ≡ false
unfolding compare_time
compare_time_asymm s t h = ground arith

-- On times, not to be earlier is transitive.
compare_time_trans :
    (s t u : Bytes)
    → check_time s ≡ true
    → check_time t ≡ true
    → check_time u ≡ true
    → compare_time s t ≡ false
    → compare_time t u ≡ false
    → compare_time s u ≡ false
compare_time_trans s t u a b c e f = ground (
  arith,
  compare_time-before s t a b,
  compare_time-before t u b c,
  compare_time-before s u a c,
  before_trans (clock s) (clock t) (clock u),
)

abbrev pub is_timed : Entry → Bool
is_timed x = check_time x.event.time

-- Not an event of the date that is earlier than `time`.
abbrev pub not_earlier : Bytes → Bytes → Entry → Bool
not_earlier date time x = not (str_eq x.event.date date) || not (compare_time x.event.time time)

-- What the loop ends with.
pub record IsEarliest (date : Bytes) (cal : Calendar) (best r : Event) : Type 0 where
  pub timed : check_time r.time ≡ true
  pub after_best : compare_time best.time r.time ≡ false
  pub first : all (not_earlier date r.time) cal ≡ true

abbrev chosen : Bytes → Entry → Event → Event
chosen date x best =
    if str_eq x.event.date date && not (compare_time best.time x.event.time) then x.event else best

chosen-cases :
    (date : Bytes) (x : Entry) (best r : Event)
    → check_time best.time ≡ true
    → is_timed x ≡ true
    → check_time r.time ≡ true
    → compare_time (chosen date x best).time r.time ≡ false
    → (compare_time best.time r.time ≡ false) × (not_earlier date r.time x ≡ true)
chosen-cases date x best r tb tx tr h =
    let tr1 = compare_time_trans best.time x.event.time r.time tb tx tr in
    let tr2 = compare_time_trans x.event.time best.time r.time tx tb tr in
    let asym = compare_time_asymm best.time x.event.time in
    elim (Bool-cases (str_eq x.event.date date)) [
      | inl d ↦ elim (Bool-cases (compare_time best.time x.event.time)) [
        | inl lt ↦ (ground arith, ground arith)
        | inr le ↦ (ground arith, ground arith)
      ]
      | inr d ↦ (ground arith, ground arith)
    ]

chosen-timed :
    (date : Bytes) (x : Entry) (best : Event)
    → check_time best.time ≡ true
    → is_timed x ≡ true
    → check_time (chosen date x best).time ≡ true
chosen-timed date x best h k = ground arith

pub earliest_loop-IsEarliest :
    (date : Bytes) (cal : Calendar) (best : Event)
    → check_time best.time ≡ true
    → all is_timed cal ≡ true
    → IsEarliest date cal best (earliest_loop date cal best)
unfolding earliest_loop
earliest_loop-IsEarliest date [] best tb t = record {
  timed = tb;
  after_best = compare_time_irrefl best.time;
  first = refl;
}
earliest_loop-IsEarliest date (x ∷ xs) best tb t =
    let (tx, txs) = &&-eq-true (is_timed x) (all is_timed xs) t in
    let ih =
      earliest_loop-IsEarliest date xs (chosen date x best) (chosen-timed date x best tb tx) txs in
    let c =
      chosen-cases date x best (earliest_loop date (x ∷ xs) best) tb tx ih.timed ih.after_best in
    record { timed = ih.timed; after_best = c.0; first = rw (c.1, ih.first) refl }

-- The first choice has the date, and so have all that replace it.
pub earliest_loop-date :
    (date : Bytes) (cal : Calendar) (best : Event)
    → str_eq best.date date ≡ true
    → str_eq (earliest_loop date cal best).date date ≡ true
unfolding earliest_loop
earliest_loop-date date [] best h = h
earliest_loop-date date (x ∷ xs) best h =
    earliest_loop-date date xs (chosen date x best) (ground arith)

-- `find` gives an entry of the calendar.
pub find-all :
    (p : Entry → Bool) (key : Bytes) (cal : Calendar) {x : Entry}
    → all p cal ≡ true
    → find key cal ≡ some x
    → (p x ≡ true) × (x.key ≡ key)
unfolding find
find-all p key [] h e = ground arith
find-all p key (y ∷ ys) {x} h e = elim (Bool-cases (str_eq y.key key)) [
  | inl k ↦
      let same : y ≡ x = ground arith in
      (ground arith, ap (λ z. z.key) (sym same) ∙ eq_of_str_eq y.key key k)
  | inr k ↦ find-all p key ys (ground arith) (ground arith)
]

-- The event of an entry has the date that the entry stands under.
abbrev pub is_matched : Entry → Bool
is_matched x = str_eq x.event.date x.key

-- The result has the date and a time, and no event of the date is earlier.
pub search_earliest-first :
    (date : Bytes) (cal : Calendar) {r : Event}
    → all is_matched cal ≡ true
    → all is_timed cal ≡ true
    → search_earliest date cal ≡ some r
    → (r.date ≡ date) × (all (not_earlier date r.time) cal ≡ true)
unfolding search_earliest
search_earliest-first date cal {r} m t e = elim (Option-cases (find date cal)) [
  | inl n ↦ absurd (ground arith)
  | inr (x, f) ↦
      let (mx, k) = find-all is_matched date cal m f in
      let (tx, k') = find-all is_timed date cal t f in
      let same : earliest_loop date cal x.event ≡ r = ground arith in
      let d = earliest_loop-date date cal x.event (rw (sym k) mx) in
      (
        eq_of_str_eq r.date date (rw (sym same) d),
        rw (sym same) (earliest_loop-IsEarliest date cal x.event tx t).first,
      )
]
