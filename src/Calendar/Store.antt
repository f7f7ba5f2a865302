-- ===== src/Calendar/Store.antt =====
-- The linked list `calendarPtr` of Assignment1/calendar_filter.c, its searches, `AppendEvent` and
-- `deleteNode`. Nodes are reached through the list alone, so the heap is the list of the nodes in
-- order, each with its address, and the addresses that were freed. 0 is NULL.
pub mod Earliest
pub mod Search
pub mod WellFormed
use advanced_systems_program.Prelude.{
  ℕ, suc, ◌+◌, Bool, false, ◌&&◌, Option, none, some, List, [], ◌∷◌, ◌==◌, if◌then◌else◌,
}
use advanced_systems_program.Prelude.Int.{ℤ, pos, negsuc, is_zero}
use advanced_systems_program.CLib.{Bytes, same_str}
use advanced_systems_program.Calendar.Event.{Event}
use advanced_systems_program.Calendar.Times.{is_time_earlier}

abbrev pub Ptr : Type 0
Ptr = ℕ

abbrev pub null : Ptr
null = 0

-- `struct eventList_t` at its address; the next pointer is the order of the list.
pub record Node : Type 0 where
  pub address : Ptr
  pub event : Event

-- `calendarPtr`, `deletePtr`, what was given to `free`, and the address that `malloc` gives next.
-- `malloc` gives no address twice here.
pub record Store : Type 0 where
  pub calendar : List Node
  pub delete_ptr : Ptr
  pub freed : List Ptr
  pub fresh : Ptr

unfoldable pub search : (Event → Bool) → List Node → Option Node
search p [] = none
search p (n ∷ ns) = if p n.event then some n else search p ns

unfoldable pub search_by_title : Bytes → List Node → Option Node
unfolding search
search_by_title title = search λ e. same_str title e.title

unfoldable pub search_by_date : Bytes → List Node → Option Node
unfolding search
search_by_date date = search λ e. same_str date e.date

abbrev pub same_title_date_time : Event → Event → Bool
same_title_date_time d e =
    same_str e.date d.date && same_str e.time d.time && same_str e.title d.title

unfoldable pub search_by_title_date_time : Event → List Node → Option Node
unfolding search
search_by_title_date_time d = search (same_title_date_time d)

-- `isTimeEarlier(…) == 0`
unfoldable pub earlier : Node → Node → Bool
earlier n m = is_zero (is_time_earlier n.event.time m.event.time)

-- The first node is kept, and compared with itself; a later one is kept if it is earlier.
unfoldable pub keep_earlier : Node → Option Node → Option Node
unfolding earlier
keep_earlier n none = some n
keep_earlier n (some best) = some (if earlier n best then n else best)

unfoldable pub earliest_loop : Bytes → List Node → Option Node → Option Node
unfolding keep_earlier
earliest_loop date [] best = best
earliest_loop date (n ∷ ns) best =
    earliest_loop date ns (if same_str date n.event.date then keep_earlier n best else best)

unfoldable pub search_earliest_by_date : Bytes → List Node → Option Node
unfolding earliest_loop
search_earliest_by_date date ns = earliest_loop date ns none

-- The walk to the last node, and the node behind it.
unfoldable pub append_node : List Node → Node → List Node
append_node [] n = n ∷ []
append_node (m ∷ ms) n = m ∷ append_node ms n

unfoldable pub append_event : Event → Store → Store
unfolding append_node
append_event e s = record s {
  calendar = append_node s.calendar (record { address = s.fresh; event = e });
  fresh = suc s.fresh;
}

-- 0 for "equal", -1 otherwise.
unfoldable pub compare_events : Event → Event → ℤ
compare_events d e =
    if same_str d.action e.action
      && same_str d.date e.date
      && same_str d.location e.location
      && same_str d.time e.time
    then pos 0
    else negsuc 0

-- The list, `deletePtr` and the freed addresses.
pub record Deletion : Type 0 where
  pub nodes : List Node
  pub pending : Ptr
  pub gone : List Ptr

-- What follows the recursive call in `deleteNode`.
unfoldable pub free_pending : Node → Deletion → Deletion
free_pending n d =
    if d.pending == null
    then record d { nodes = n ∷ d.nodes }
    else record { nodes = n ∷ d.nodes; pending = null; gone = d.pending ∷ d.gone }

unfoldable pub delete_node : List Node → Ptr → Ptr → List Ptr → Deletion
unfolding free_pending
delete_node [] node pending gone = record { nodes = []; pending = pending; gone = gone }
delete_node (n ∷ ns) node pending gone =
    if n.address == node
    then record { nodes = ns; pending = n.address; gone = gone }
    else free_pending n (delete_node ns node pending gone)

-- `p->Event = e`
unfoldable pub write_event : Ptr → Event → List Node → List Node
write_event p e [] = []
write_event p e (n ∷ ns) =
    if n.address == p then record n { event = e } ∷ ns else n ∷ write_event p e ns
