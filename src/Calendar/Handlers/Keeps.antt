-- ===== src/Calendar/Handlers/Keeps.antt =====
-- The operations keep the store well formed; creating and deleting, and editing by title.
use advanced_systems_program.Prelude.{
  ℕ, ◌≡◌, refl, ap, sym, ◌∙◌, Bool, true, Option, none, some, List, [], ◌∷◌, ◌==◌, if◌then◌else◌,
  arith, Bool-cases, inl, inr, ==_iff, get_or, str_eq_self,
}
use advanced_systems_program.CLib.{same_str, c_str}
use advanced_systems_program.Calendar.Event.{Event}
use advanced_systems_program.Calendar.Store.{
  Node, Store, search, search_by_title, search_by_date, same_title_date_time, append_node,
  append_event, write_event,
}
use advanced_systems_program.Calendar.Store.Search.{search-nodes_at}
use advanced_systems_program.Calendar.Store.WellFormed.{
  IsWellFormed, append_event-IsWellFormed, write_event-IsWellFormed,
}
use advanced_systems_program.Calendar.Handlers.{
  create_found, create_event, edit_found, edit_event, delete_event, process_calendar,
}
use advanced_systems_program.Calendar.Handlers.Delete.{
  erase_first, Distinct, Distinct-tail, Distinct-calendar, head_differs, remove-IsWellFormed,
}
use advanced_systems_program.Calendar.Handlers.Laws.{
  removed, delete_event-store, delete_event-erase_first,
}

create_event-store : (e : Event) (s : Store) → (create_event e s).0 ≡ append_event e s
unfolding create_event
create_event-store e s = found (search_by_date e.date s.calendar)
  where
    found : (o : Option Node) → (create_found e s o).0 ≡ append_event e s
    found none = unfold create_found in refl
    found (some n) = unfold create_found in refl

create_event-IsWellFormed :
    (e : Event) (s : Store) → IsWellFormed s → IsWellFormed (create_event e s).0
create_event-IsWellFormed e s w = rw (create_event-store e s) (append_event-IsWellFormed e s w)

edit_found-IsWellFormed :
    (e : Event) (s : Store) (o : Option Node) → IsWellFormed s → IsWellFormed (edit_found e s o).0
unfolding edit_found
edit_found-IsWellFormed e s none w = w
edit_found-IsWellFormed e s (some n) w = write_event-IsWellFormed n.address e s w

edit_event-IsWellFormed : (e : Event) (s : Store) → IsWellFormed s → IsWellFormed (edit_event e s).0
unfolding edit_event
edit_event-IsWellFormed e s w = edit_found-IsWellFormed e s (search_by_title e.title s.calendar) w

removed-IsWellFormed : (o : Option Node) (s : Store) → IsWellFormed s → IsWellFormed (removed o s)
removed-IsWellFormed none s w = w
removed-IsWellFormed (some n) s w = remove-IsWellFormed s n w

delete_event-IsWellFormed :
    (e : Event) (s : Store) → IsWellFormed s → IsWellFormed (delete_event e s).0
delete_event-IsWellFormed e s w =
    rw (delete_event-store e s)
      (removed-IsWellFormed (search (same_title_date_time e) s.calendar) s w)

-- Whatever the action, the store stays well formed: no node shares its address, is used after it
-- was freed, or is freed twice.
pub process_calendar-IsWellFormed :
    (e : Event) (s : Store) → IsWellFormed s → IsWellFormed (process_calendar e s).0
unfolding process_calendar
process_calendar-IsWellFormed e s w = elim (Bool-cases (get_or e.action 0 0 == b'C')) [
  | inl c ↦ rw c (create_event-IsWellFormed e s w)
  | inr c ↦ elim (Bool-cases (get_or e.action 0 0 == b'X')) [
    | inl x ↦ rw (c, x) (edit_event-IsWellFormed e s w)
    | inr x ↦ elim (Bool-cases (get_or e.action 0 0 == b'D')) [
      | inl d ↦ rw (c, x, d) (delete_event-IsWellFormed e s w)
      | inr d ↦ rw (c, x, d) w
    ]
  ]
]

erase_first-append :
    (p : Event → Bool) (ns : List Node) (n : Node)
    → search p ns ≡ none
    → p n.event ≡ true
    → erase_first p (append_node ns n) ≡ ns
unfolding search erase_first append_node
erase_first-append p [] n h t = rw t
erase_first-append p (m ∷ ms) n h t = elim (Bool-cases (p m.event)) [
  | inl u ↦ absurd (ground arith)
  | inr u ↦ rw u (ap (◌∷◌ m) (erase_first-append p ms n (rw u at h) t))
]

same_str_self : (a : List ℕ) → same_str a a ≡ true
unfolding same_str
same_str_self a = str_eq_self (c_str a)

-- An event that is created and then deleted leaves the list as it was, if no event with its title,
-- date and time was there.
pub delete_event-create_event :
    (e : Event) (s : Store)
    → IsWellFormed s
    → search (same_title_date_time e) s.calendar ≡ none
    → (delete_event e (create_event e s).0).0.calendar ≡ s.calendar
unfolding append_event
delete_event-create_event e s w h =
    delete_event-erase_first e (create_event e s).0 (create_event-IsWellFormed e s w)
    ∙ ap (λ (x : Store). erase_first (same_title_date_time e) x.calendar) (create_event-store e s)
    ∙ erase_first-append (same_title_date_time e) s.calendar _ h
        (rw (same_str_self e.date, same_str_self e.time, same_str_self e.title) refl)

-- The events of the list, in order.
abbrev pub events : List Node → List Event
events [] = []
events (n ∷ ns) = n.event ∷ events ns

unfoldable pub replace_first : (Event → Bool) → Event → List Event → List Event
replace_first p e [] = []
replace_first p e (d ∷ ds) = if p d then e ∷ ds else d ∷ replace_first p e ds

events-write_event :
    (p : Event → Bool) (e : Event) (ns : List Node) (n : Node)
    → Distinct ns
    → search p ns ≡ some n
    → events (write_event n.address e ns) ≡ replace_first p e (events ns)
unfolding search write_event replace_first
events-write_event p e [] n d h = absurd (ground arith)
events-write_event p e (m ∷ ms) n d h = elim (Bool-cases (p m.event)) [
  | inl t ↦
      let same : m ≡ n = ground arith in
      rw (t, (==_iff m.address n.address).1 (ap (λ (x : Node). x.address) same)) refl
  | inr t ↦
      let rest : search p ms ≡ some n = rw t at h in
      rw (t, head_differs m n ms d (search-nodes_at p ms n rest))
        (ap (◌∷◌ m.event) (events-write_event p e ms n (Distinct-tail m ms d) rest))
]

replace_first-absent :
    (p : Event → Bool) (e : Event) (ns : List Node)
    → search p ns ≡ none
    → replace_first p e (events ns) ≡ events ns
unfolding search replace_first
replace_first-absent p e [] h = refl
replace_first-absent p e (n ∷ ns) h = elim (Bool-cases (p n.event)) [
  | inl t ↦ absurd (ground arith)
  | inr t ↦ rw t (ap (◌∷◌ n.event) (replace_first-absent p e ns (rw t at h)))
]

abbrev pub has_title : Event → Event → Bool
has_title e d = same_str e.title d.title

edit_found-replace_first :
    (e : Event) (s : Store)
    → IsWellFormed s
    → (o : Option Node) → search (has_title e) s.calendar ≡ o
    → events (edit_found e s o).0.calendar ≡ replace_first (has_title e) e (events s.calendar)
unfolding edit_found
edit_found-replace_first e s w none h = sym (replace_first-absent (has_title e) e s.calendar h)
edit_found-replace_first e s w (some n) h =
    events-write_event (has_title e) e s.calendar n (Distinct-calendar s w) h

-- `EditEvent` puts the event in the place of the first one with its title, and leaves all others;
-- with no such title the list stays.
pub edit_event-replace_first :
    (e : Event) (s : Store)
    → IsWellFormed s
    → events (edit_event e s).0.calendar ≡ replace_first (has_title e) e (events s.calendar)
unfolding edit_event search_by_title
edit_event-replace_first e s w =
    edit_found-replace_first e s w (search (has_title e) s.calendar) refl
