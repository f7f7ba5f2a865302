-- ===== src/Calendar/Handlers/Delete.antt =====
-- `DeleteEvent`: which node leaves the list, and what becomes of its memory.
use advanced_systems_program.Prelude.{
  ◌≤◌, ◌≡◌, ◌≢◌, refl, ap, Bool, false, not, ◌&&◌, some, List, [], ◌∷◌, ◌==◌, if◌then◌else◌, arith,
  Bool-cases, inl, inr, ==_iff,
}
use advanced_systems_program.Calendar.Event.{Event}
use advanced_systems_program.Calendar.Store.{
  Ptr, null, Node, Store, search, Deletion, free_pending, delete_node,
}
use advanced_systems_program.Calendar.Store.Search.{search-nodes_at}
use advanced_systems_program.Calendar.Store.WellFormed.{
  nodes_at, IsWellFormed, uses_of-delete_node, nodes_at-delete_node,
}
use advanced_systems_program.Calendar.Handlers.{drop_deleted_head, remove}

-- The list without the first node whose event satisfies `p`.
unfoldable pub erase_first : (Event → Bool) → List Node → List Node
erase_first p [] = []
erase_first p (n ∷ ns) = if p n.event then ns else n ∷ erase_first p ns

-- Each address but NULL stands once in the list, and NULL not at all.
abbrev pub Distinct : List Node → Type 0
Distinct ns = (nodes_at null ns ≡ 0) × ((a : Ptr) → a ≢ null → nodes_at a ns ≤ 1)

pub Distinct-tail : (n : Node) (ns : List Node) → Distinct (n ∷ ns) → Distinct ns
Distinct-tail n ns (z, d) = (omega arith, λ a ne. omega (arith, d a ne))

free_pending-nodes : (n : Node) (d : Deletion) → (free_pending n d).nodes ≡ n ∷ d.nodes
unfolding free_pending
free_pending-nodes n d = ground arith

pub head_differs :
    (m n : Node) (ns : List Node)
    → Distinct (m ∷ ns)
    → 1 ≤ nodes_at n.address ns
    → (m.address == n.address) ≡ false
head_differs m n ns (z, d) there = ground (arith, d n.address)

-- Deletion by address takes out the node that the search found, and no other.
pub delete_node-erase_first :
    (p : Event → Bool) (ns : List Node) (n : Node) (pending : Ptr) (gone : List Ptr)
    → Distinct ns
    → search p ns ≡ some n
    → (delete_node ns n.address pending gone).nodes ≡ erase_first p ns
unfolding search delete_node erase_first
delete_node-erase_first p [] n pending gone d h = ground arith
delete_node-erase_first p (m ∷ ms) n pending gone d h = elim (Bool-cases (p m.event)) [
  | inl e ↦
      let same : some m ≡ some n = rw e at h in
      let there : m.address ≡ n.address = ground arith in
      rw (e, (==_iff m.address n.address).1 there) refl
  | inr e ↦
      let rest : search p ms ≡ some n = rw e at h in
      rw (e, head_differs m n ms d (search-nodes_at p ms n rest), free_pending-nodes)
        (ap (◌∷◌ m) (delete_node-erase_first p ms n pending gone (Distinct-tail m ms d) rest))
]

module _ (s : Store) (w : IsWellFormed s) where
  pub Distinct-calendar : Distinct s.calendar
  Distinct-calendar = (w.no_null, λ a ne. omega (arith, w.once a ne))

  abbrev pub deletion : Ptr → Deletion
  deletion p = delete_node s.calendar p s.delete_ptr s.freed

  abbrev pub deleted : Ptr → Store
  deleted p = record s {
    calendar = (deletion p).nodes;
    delete_ptr = (deletion p).pending;
    freed = (deletion p).gone;
  }

  deleted-IsWellFormed : (p : Ptr) → IsWellFormed (deleted p)
  deleted-IsWellFormed p = record {
    once = λ a ne.
        omega (arith, uses_of-delete_node a s.calendar p s.delete_ptr s.freed ne, w.once a ne);
    unused = λ a h. omega (
      arith,
      uses_of-delete_node a s.calendar p s.delete_ptr s.freed (positive a h),
      w.unused a h,
    );
    no_null = omega (arith, nodes_at-delete_node null s.calendar p s.delete_ptr s.freed, w.no_null);
    fresh_pos = w.fresh_pos;
  }
    where
      positive : (a : Ptr) → s.fresh ≤ a → a ≢ null
      positive a h = omega (arith, w.fresh_pos)

-- The code that tests for the head of the list behind `deleteNode` never frees anything.
drop_deleted_head-same :
    (s : Store) (ns : List Node) → s.calendar ≡ ns → IsWellFormed s → drop_deleted_head ns s ≡ s
unfolding drop_deleted_head
drop_deleted_head-same s [] e w = refl
drop_deleted_head-same s (n ∷ ns) e w =
    elim (Bool-cases (not (s.delete_ptr == null) && s.delete_ptr == n.address)) [
      | inl t ↦ absurd (ground (arith, w.once s.delete_ptr, ap (nodes_at s.delete_ptr) e))
      | inr t ↦ rw t refl
    ]

pub remove-deleted :
    (s : Store) (w : IsWellFormed s) (n : Node) → remove n s ≡ deleted s w n.address
unfolding remove
remove-deleted s w n =
    drop_deleted_head-same (deleted s w n.address) _ refl (deleted-IsWellFormed s w n.address)

pub remove-IsWellFormed : (s : Store) (n : Node) → IsWellFormed s → IsWellFormed (remove n s)
remove-IsWellFormed s n w = rw (remove-deleted s w n) (deleted-IsWellFormed s w n.address)
