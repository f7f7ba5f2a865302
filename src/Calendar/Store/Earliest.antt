-- ===== src/Calendar/Store/Earliest.antt =====
-- `SearchEarliestEventByDate`: what it finds, and when that is the earliest event.
use advanced_systems_program.Prelude.{
  ℕ, ◌+◌, ◌-◌, ◌*◌, ◌≤◌, ◌<◌, ◌≡◌, refl, ap, &&-eq-true, ◌∙◌, ◌⊎◌, inl, inr, Bool, true, false,
  ◌&&◌, ◌||◌, Option, none, some, List, [], ◌∷◌, if◌then◌else◌, ltb, leb, all, any, arith,
  Bool-cases, not, get_or, str_eq, eq_of_str_eq, ltb→lt,
}
use advanced_systems_program.Prelude.Int.{pos, negsuc, is_zero}
use mathlib.Core.Path.{ap₂}
use advanced_systems_program.CLib.{Bytes, same_str}
use advanced_systems_program.Calendar.Times.{is_time_earlier}
use advanced_systems_program.Calendar.Times.Order.{clock, is_time_earlier-same_hour}
use advanced_systems_program.Calendar.Store.{Node, earlier, earliest_loop, search_earliest_by_date}

pub data Occurs (n : Node) : List Node → Type 0 where
  here : {ns : List Node} → Occurs n (n ∷ ns)
  there : {m : Node} {ns : List Node} → Occurs n ns → Occurs n (m ∷ ns)

abbrev pub on_date : Bytes → Node → Bool
on_date date n = same_str date n.event.date

-- No node of the list has the date, or a node of the list with the date is found.
pub data Found (date : Bytes) (ns : List Node) : Option Node → Type 0 where
  nothing : any (on_date date) ns ≡ false → Found date ns none
  node : {r : Node} → Occurs r ns → on_date date r ≡ true → Found date ns (some r)

abbrev Kept : Bytes → Node → List Node → Option Node → Type 0
Kept date b ns o = (r : Node) × (o ≡ some r) × ((r ≡ b) ⊎ (Occurs r ns × (on_date date r ≡ true)))

Kept-later :
    (date : Bytes) (b m : Node) (ns : List Node) {o : Option Node}
    → (m ≡ b) ⊎ (Occurs m (m ∷ ns) × (on_date date m ≡ true))
    → Kept date m ns o
    → Kept date b (m ∷ ns) o
Kept-later date b m ns first (r, e, inl same) = (r, e, rw same first)
Kept-later date b m ns first (r, e, inr (o, d)) = (r, e, inr (there o, d))

Kept-skip :
    (date : Bytes) (b m : Node) (ns : List Node) {o : Option Node}
    → Kept date b ns o
    → Kept date b (m ∷ ns) o
Kept-skip date b m ns (r, e, inl same) = (r, e, inl same)
Kept-skip date b m ns (r, e, inr (o, d)) = (r, e, inr (there o, d))

earliest_loop-Kept :
    (date : Bytes) (ns : List Node) (b : Node) → Kept date b ns (earliest_loop date ns (some b))
unfolding earliest_loop
earliest_loop-Kept date [] b = (b, refl, inl refl)
earliest_loop-Kept date (n ∷ ns) b = elim (Bool-cases (on_date date n)) [
  | inl d ↦ elim (Bool-cases (earlier n b)) [
    | inl e ↦ rw (d, e) (Kept-later date b n ns (inr (here, d)) (earliest_loop-Kept date ns n))
    | inr e ↦ rw (d, e) (Kept-skip date b n ns (earliest_loop-Kept date ns b))
  ]
  | inr d ↦ rw d (Kept-skip date b n ns (earliest_loop-Kept date ns b))
]

Found-skip :
    (date : Bytes) (n : Node) (ns : List Node)
    → on_date date n ≡ false
    → {o : Option Node} → Found date ns o
    → Found date (n ∷ ns) o
Found-skip date n ns d (nothing h) = nothing (rw d h)
Found-skip date n ns d (node o h) = node (there o) h

Found-Kept :
    (date : Bytes) (n : Node) (ns : List Node)
    → on_date date n ≡ true
    → (o : Option Node) → Kept date n ns o
    → Found date (n ∷ ns) o
Found-Kept date n ns d o (r, e, inl same) = rw (e, same) (node here d)
Found-Kept date n ns d o (r, e, inr (h, d')) = rw e (node (there h) d')

-- The search finds a node of the list with the date whenever there is one, and gives NULL only if
-- there is none.
pub search_earliest-Found :
    (date : Bytes) (ns : List Node) → Found date ns (search_earliest_by_date date ns)
unfolding search_earliest_by_date
search_earliest-Found date [] = nothing refl
search_earliest-Found date (n ∷ ns) = elim (Bool-cases (on_date date n)) [
  | inl d ↦ rw d (Found-Kept date n ns d _ (earliest_loop-Kept date ns n))
  | inr d ↦ rw d (Found-skip date n ns d (search_earliest-Found date ns))
]

is_zero-test : (b : Bool) → is_zero (if b then pos 0 else negsuc 0) ≡ b
is_zero-test true = refl
is_zero-test false = refl

-- The minute of a node's time, if it is HH:MM.
abbrev pub minute_of : Node → ℕ
minute_of n = 10 * (get_or n.event.time 3 0 - b'0') + (get_or n.event.time 4 0 - b'0')

-- The time is HH:MM in the given hour.
abbrev pub in_hour : ℕ → Node → Bool
in_hour h n = str_eq n.event.time (clock h (minute_of n)) && ltb (minute_of n) 60

in_hour-clock :
    (h : ℕ) (n : Node)
    → in_hour h n ≡ true
    → (n.event.time ≡ clock h (minute_of n)) × (minute_of n < 60)
in_hour-clock h n p = let q = &&-eq-true _ _ p in (eq_of_str_eq _ _ q.0, ltb→lt q.1)

earlier-minute_of :
    (h : ℕ) (n m : Node)
    → h < 24
    → in_hour h n ≡ true
    → in_hour h m ≡ true
    → earlier n m ≡ ltb (minute_of n) (minute_of m)
unfolding earlier
earlier-minute_of h n m lt p q =
    let (tn, kn) = in_hour-clock h n p in
    let (tm, km) = in_hour-clock h m q in
    ap is_zero
      (ap₂ is_time_earlier tn tm ∙ is_time_earlier-same_hour h (minute_of n) (minute_of m) lt kn km)
    ∙ is_zero-test (ltb (minute_of n) (minute_of m))

-- Every node with the date has its time in the hour.
abbrev pub all_in_hour : Bytes → ℕ → List Node → Bool
all_in_hour date h ns = all (λ n. not (on_date date n) || in_hour h n) ns

-- No node with the date has a smaller minute.
abbrev pub least_minute : Bytes → ℕ → List Node → Bool
least_minute date k ns = all (λ n. not (on_date date n) || leb k (minute_of n)) ns

module _ (date : Bytes) (h : ℕ) (lt : h < 24) where
  abbrev Least : Node → List Node → Option Node → Type 0
  Least b ns o =
      (r : Node)
      → o ≡ some r
      → (minute_of r ≤ minute_of b) × (least_minute date (minute_of r) ns ≡ true)

  earliest_loop-Least :
      (ns : List Node) (b : Node)
      → in_hour h b ≡ true
      → all_in_hour date h ns ≡ true
      → Least b ns (earliest_loop date ns (some b))
  unfolding earliest_loop
  earliest_loop-Least [] b q a r e =
      let same : b ≡ r = ground arith in (rw same (ground arith), refl)
  earliest_loop-Least (n ∷ ns) b q a r e = elim (Bool-cases (on_date date n)) [
    | inl d ↦
        let (p, a') = &&-eq-true (in_hour h n) (all_in_hour date h ns) (rw d at a) in
        let cmp = earlier-minute_of h n b lt p q in
        elim (Bool-cases (earlier n b)) [
          | inl t ↦
              let (le, m) = earliest_loop-Least ns n p a' r (rw (d, t) at e) in
              (ground arith, rw d (ground arith))
          | inr t ↦
              let (le, m) = earliest_loop-Least ns b q a' r (rw (d, t) at e) in
              (le, rw d (ground arith))
        ]
    | inr d ↦ let (le, m) = earliest_loop-Least ns b q (rw d at a) r (rw d at e) in (le, rw d m)
  ]

  -- If the events of a date all lie in one hour, the node that is found has the smallest minute.
  pub search_earliest-least :
      (ns : List Node) (r : Node)
      → all_in_hour date h ns ≡ true
      → search_earliest_by_date date ns ≡ some r
      → least_minute date (minute_of r) ns ≡ true
  unfolding search_earliest_by_date
  search_earliest-least [] r a e = refl
  search_earliest-least (n ∷ ns) r a e = elim (Bool-cases (on_date date n)) [
    | inl d ↦
        let (p, a') = &&-eq-true (in_hour h n) (all_in_hour date h ns) (rw d at a) in
        let (le, m) = earliest_loop-Least ns n p a' r (rw d at e) in rw d (ground arith)
    | inr d ↦ rw d (search_earliest-least ns r (rw d at a) (rw d at e))
  ]
