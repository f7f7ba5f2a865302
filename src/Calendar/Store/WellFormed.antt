-- ===== src/Calendar/Store/WellFormed.antt =====
-- Each address is used once: by a node of the list, by `deletePtr`, or among the freed ones.
use advanced_systems_program.Prelude.{
  ℕ, ◌+◌, ◌≤◌, ◌<◌, ◌≡◌, ◌≢◌, refl, List, [], ◌∷◌, ◌==◌, if◌then◌else◌, arith, Bool-cases, inl, inr,
}
use advanced_systems_program.Calendar.Event.{Event}
use advanced_systems_program.Calendar.Store.{
  Ptr, null, Node, Store, append_node, append_event, Deletion, free_pending, delete_node,
  write_event,
}

-- 1 for a hit.
abbrev pub hit : Ptr → Ptr → ℕ
hit a b = if a == b then 1 else 0

abbrev pub nodes_at : Ptr → List Node → ℕ
nodes_at a [] = 0
nodes_at a (n ∷ ns) = hit a n.address + nodes_at a ns

abbrev pub frees_of : Ptr → List Ptr → ℕ
frees_of a [] = 0
frees_of a (p ∷ ps) = hit a p + frees_of a ps

-- How often the store uses an address.
abbrev pub uses : Ptr → Store → ℕ
uses a s = nodes_at a s.calendar + frees_of a s.freed + hit a s.delete_ptr

-- No two nodes share an address, no node of the list and no pending node was freed, nothing was
-- freed twice, and `malloc` has yet to give the addresses from `fresh` on.
pub record IsWellFormed (s : Store) : Type 0 where
  pub once : (a : Ptr) → a ≢ null → uses a s ≤ 1
  pub unused : (a : Ptr) → s.fresh ≤ a → uses a s ≡ 0
  pub no_null : nodes_at null s.calendar ≡ 0
  pub fresh_pos : 0 < s.fresh

pub nodes_at-append :
    (a : Ptr) (ns : List Node) (n : Node)
    → nodes_at a (append_node ns n) ≡ nodes_at a ns + hit a n.address
unfolding append_node
nodes_at-append a [] n = omega arith
nodes_at-append a (m ∷ ms) n = omega (arith, nodes_at-append a ms n)

pub append_event-IsWellFormed :
    (e : Event) (s : Store) → IsWellFormed s → IsWellFormed (append_event e s)
unfolding append_event
append_event-IsWellFormed e s w = record {
  once = λ a ne. ground (arith, w.once a ne, w.unused a, at a);
  unused = λ a h. ground (arith, w.unused a, at a);
  no_null = ground (arith, w.no_null, w.fresh_pos, at null);
  fresh_pos = omega arith;
}
  where
    at :
        (a : Ptr)
        → nodes_at a (append_node s.calendar (record { address = s.fresh; event = e }))
          ≡ nodes_at a s.calendar + hit a s.fresh
    at a = nodes_at-append a s.calendar (record { address = s.fresh; event = e })

pub nodes_at-write :
    (a p : Ptr) (e : Event) (ns : List Node) → nodes_at a (write_event p e ns) ≡ nodes_at a ns
unfolding write_event
nodes_at-write a p e [] = refl
nodes_at-write a p e (n ∷ ns) = ground (arith, nodes_at-write a p e ns)

pub write_event-IsWellFormed :
    (p : Ptr) (e : Event) (s : Store)
    → IsWellFormed s
    → IsWellFormed (record s { calendar = write_event p e s.calendar })
write_event-IsWellFormed p e s w = record {
  once = λ a ne. omega (arith, w.once a ne, nodes_at-write a p e s.calendar);
  unused = λ a h. omega (arith, w.unused a h, nodes_at-write a p e s.calendar);
  no_null = omega (arith, w.no_null, nodes_at-write null p e s.calendar);
  fresh_pos = w.fresh_pos;
}

abbrev pub uses_of : Ptr → Deletion → ℕ
uses_of a d = nodes_at a d.nodes + frees_of a d.gone + hit a d.pending

uses_of-free_pending :
    (a : Ptr) (n : Node) (d : Deletion)
    → a ≢ null
    → uses_of a (free_pending n d) ≡ hit a n.address + uses_of a d
unfolding free_pending
uses_of-free_pending a n d ne = ground arith

nodes_at-free_pending :
    (a : Ptr) (n : Node) (d : Deletion)
    → nodes_at a (free_pending n d).nodes ≡ hit a n.address + nodes_at a d.nodes
unfolding free_pending
nodes_at-free_pending a n d = ground arith

-- `deleteNode` takes no address into use; it may forget the one that was pending.
pub uses_of-delete_node :
    (a : Ptr) (ns : List Node) (node pending : Ptr) (gone : List Ptr)
    → a ≢ null
    → uses_of a (delete_node ns node pending gone) ≤ nodes_at a ns + frees_of a gone + hit a pending
unfolding delete_node
uses_of-delete_node a [] node pending gone ne = omega arith
uses_of-delete_node a (n ∷ ns) node pending gone ne = elim (Bool-cases (n.address == node)) [
  | inl e ↦ rw e (omega arith)
  | inr e ↦ rw e (
      omega (
        arith,
        uses_of-free_pending a n (delete_node ns node pending gone) ne,
        uses_of-delete_node a ns node pending gone ne,
      ))
]

pub nodes_at-delete_node :
    (a : Ptr) (ns : List Node) (node pending : Ptr) (gone : List Ptr)
    → nodes_at a (delete_node ns node pending gone).nodes ≤ nodes_at a ns
unfolding delete_node
nodes_at-delete_node a [] node pending gone = omega arith
nodes_at-delete_node a (n ∷ ns) node pending gone = elim (Bool-cases (n.address == node)) [
  | inl e ↦ rw e (omega arith)
  | inr e ↦ rw e (
      omega (
        arith,
        nodes_at-free_pending a n (delete_node ns node pending gone),
        nodes_at-delete_node a ns node pending gone,
      ))
]
