-- ===== src/Calendar/Handlers/Laws.antt =====
-- What the three operations do to the list of events and to the memory of its nodes.
use advanced_systems_program.Prelude.{
  ◌≡◌, ◌≢◌, refl, ap, sym, ◌∙◌, Bool, true, false, Option, none, some, List, [], ◌∷◌, ◌==◌,
  if◌then◌else◌, arith, Bool-cases, inl, inr,
}
use mathlib.Core.Path.{subst}
use advanced_systems_program.Calendar.Event.{Event}
use advanced_systems_program.Calendar.Store.{
  Ptr, null, Node, Store, search, search_by_title_date_time, same_title_date_time, Deletion,
  free_pending, delete_node,
}
use advanced_systems_program.Calendar.Store.Search.{search-nodes_at}
use advanced_systems_program.Calendar.Store.WellFormed.{IsWellFormed}
use advanced_systems_program.Calendar.Handlers.{remove, delete_found, delete_event}
use advanced_systems_program.Calendar.Handlers.Delete.{
  erase_first, Distinct, Distinct-tail, Distinct-calendar, remove-deleted, head_differs,
  delete_node-erase_first,
}

-- The store that the search leads to.
abbrev pub removed : Option Node → Store → Store
removed none s = s
removed (some n) s = remove n s

delete_found-store :
    (e : Event) (s : Store) (o : Option Node) → (delete_found e s o).0 ≡ removed o s
unfolding delete_found
delete_found-store e s none = refl
delete_found-store e s (some n) = refl

pub delete_event-store :
    (e : Event) (s : Store)
    → (delete_event e s).0 ≡ removed (search (same_title_date_time e) s.calendar) s
unfolding delete_event search_by_title_date_time
delete_event-store e s = delete_found-store e s (search (same_title_date_time e) s.calendar)

erase_first-absent :
    (p : Event → Bool) (ns : List Node) → search p ns ≡ none → erase_first p ns ≡ ns
unfolding search erase_first
erase_first-absent p [] h = refl
erase_first-absent p (n ∷ ns) h = elim (Bool-cases (p n.event)) [
  | inl t ↦ absurd (ground arith)
  | inr t ↦ rw t (ap (◌∷◌ n) (erase_first-absent p ns (rw t at h)))
]

removed-erase_first :
    (p : Event → Bool) (s : Store)
    → IsWellFormed s
    → (o : Option Node) → search p s.calendar ≡ o
    → (removed o s).calendar ≡ erase_first p s.calendar
removed-erase_first p s w none h = sym (erase_first-absent p s.calendar h)
removed-erase_first p s w (some n) h =
    ap (λ (x : Store). x.calendar) (remove-deleted s w n)
    ∙ delete_node-erase_first p s.calendar n s.delete_ptr s.freed (Distinct-calendar s w) h

-- `DeleteEvent` takes out of the list the first node with the title, date and time of the event,
-- and no other; with no such node the list stays.
pub delete_event-erase_first :
    (e : Event) (s : Store)
    → IsWellFormed s
    → (delete_event e s).0.calendar ≡ erase_first (same_title_date_time e) s.calendar
delete_event-erase_first e s w =
    ap (λ (x : Store). x.calendar) (delete_event-store e s)
    ∙ removed-erase_first (same_title_date_time e) s w _ refl

delete_node-step :
    (m : Node) (ns : List Node) (p pending : Ptr) (gone : List Ptr)
    → (m.address == p) ≡ false
    → delete_node (m ∷ ns) p pending gone ≡ free_pending m (delete_node ns p pending gone)
unfolding delete_node
delete_node-step m ns p pending gone h = rw h

delete_node-here :
    (m : Node) (ns : List Node) (p pending : Ptr) (gone : List Ptr)
    → m.address ≡ p
    → delete_node (m ∷ ns) p pending gone ≡ record { nodes = ns; pending = p; gone = gone }
unfolding delete_node
delete_node-here m ns p pending gone h = ground arith

abbrev Freed : Ptr → List Ptr → Deletion → Type 0
Freed p gone d = (d.pending ≡ null) × (d.gone ≡ p ∷ gone)

free_pending-Freed :
    (m : Node) (p : Ptr) (gone : List Ptr) (d : Deletion)
    → Freed p gone d
    → Freed p gone (free_pending m d)
unfolding free_pending
free_pending-Freed m p gone d h = ground arith

free_pending-frees :
    (m : Node) (ns : List Node) (p : Ptr) (gone : List Ptr)
    → p ≢ null
    → Freed p gone (free_pending m (record { nodes = ns; pending = p; gone = gone }))
unfolding free_pending
free_pending-frees m ns p gone h = ground arith

-- A node behind the head is freed, and nothing stays pending.
delete_node-behind :
    (p : Event → Bool) (m : Node) (ns : List Node) (n : Node) (pending : Ptr) (gone : List Ptr)
    → Distinct (m ∷ ns)
    → search p ns ≡ some n
    → Freed n.address gone (delete_node (m ∷ ns) n.address pending gone)
unfolding search
delete_node-behind p m [] n pending gone d h = absurd (ground arith)
delete_node-behind p m (k ∷ ks) n pending gone d h =
    rw
      (delete_node-step m (k ∷ ks) n.address pending gone
        (head_differs m n (k ∷ ks) d (search-nodes_at p (k ∷ ks) n h)))
      (elim (Bool-cases (p k.event)) [
        | inl t ↦
            let same : k ≡ n = ground arith in
            rw (delete_node-here k ks n.address pending gone (ap (λ (x : Node). x.address) same))
              (free_pending-frees m ks n.address gone (ground arith))
        | inr t ↦
            free_pending-Freed m n.address gone _
              (delete_node-behind p k ks n pending gone (Distinct-tail m (k ∷ ks) d) (rw t at h))
      ])

-- The fields of a deletion that `remove` keeps.
remove-Deletion :
    (s : Store) (w : IsWellFormed s) (n : Node) (ns : List Node) (d : Deletion)
    → s.calendar ≡ ns
    → delete_node ns n.address s.delete_ptr s.freed ≡ d
    → ((remove n s).freed ≡ d.gone) × ((remove n s).delete_ptr ≡ d.pending)
remove-Deletion s w n ns d c h = (
  ap (λ (x : Store). x.freed) (remove-deleted s w n) ∙ ap (λ (x : Deletion). x.gone) whole,
  ap (λ (x : Store). x.delete_ptr) (remove-deleted s w n) ∙ ap (λ (x : Deletion). x.pending) whole,
)
  where
    whole : delete_node s.calendar n.address s.delete_ptr s.freed ≡ d
    whole = ap (λ x. delete_node x n.address s.delete_ptr s.freed) c ∙ h

removed-behind :
    (p : Event → Bool) (s : Store)
    → IsWellFormed s
    → (m : Node) (ms : List Node) → s.calendar ≡ m ∷ ms
    → (n : Node) → search p ms ≡ some n
    → ((remove n s).freed ≡ n.address ∷ s.freed) × ((remove n s).delete_ptr ≡ null)
removed-behind p s w m ms c n h =
    let d =
      delete_node-behind p m ms n s.delete_ptr s.freed (subst Distinct c (Distinct-calendar s w))
        h in
    let r = remove-Deletion s w n (m ∷ ms) _ c refl in (r.0 ∙ d.1, r.1 ∙ d.0)

search-head :
    (p : Event → Bool) (m : Node) (ms : List Node)
    → search p (m ∷ ms) ≡ (if p m.event then some m else search p ms)
unfolding search
search-head p m ms = refl

module _ (e : Event) (s : Store) (w : IsWellFormed s) (m : Node) (ms : List Node)
    (c : s.calendar ≡ m ∷ ms) where
  store :
      (o : Option Node)
      → (if same_title_date_time e m.event then some m else search (same_title_date_time e) ms) ≡ o
      → (delete_event e s).0 ≡ removed o s
  store o h =
      delete_event-store e s
      ∙ ap (λ x. removed x s)
          (ap (search (same_title_date_time e)) c ∙ search-head (same_title_date_time e) m ms ∙ h)

  -- If the deleted node heads the list nothing is freed: its address is kept in `deletePtr`, in the
  -- place of what was kept there.
  pub delete_event-head :
      same_title_date_time e m.event ≡ true
      → ((delete_event e s).0.freed ≡ s.freed) × ((delete_event e s).0.delete_ptr ≡ m.address)
  delete_event-head t =
      let r =
        remove-Deletion s w m (m ∷ ms) _ c
          (delete_node-here m ms m.address s.delete_ptr s.freed refl) in
      let o = store (some m) (rw t refl) in
      (ap (λ (x : Store). x.freed) o ∙ r.0, ap (λ (x : Store). x.delete_ptr) o ∙ r.1)

  -- If the deleted node stands behind the head its address, and no other, is freed, and `deletePtr`
  -- is cleared, so an address that was kept there is neither freed nor kept.
  pub delete_event-behind :
      same_title_date_time e m.event ≡ false
      → (n : Node) → search (same_title_date_time e) ms ≡ some n
      → ((delete_event e s).0.freed ≡ n.address ∷ s.freed)
        × ((delete_event e s).0.delete_ptr ≡ null)
  delete_event-behind t n h =
      let r = removed-behind (same_title_date_time e) s w m ms c n h in
      let o = store (some n) (rw t h) in
      (ap (λ (x : Store). x.freed) o ∙ r.0, ap (λ (x : Store). x.delete_ptr) o ∙ r.1)
