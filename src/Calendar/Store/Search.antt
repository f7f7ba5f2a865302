-- ===== src/Calendar/Store/Search.antt =====
-- What the searches of the list find.
use advanced_systems_program.Prelude.{◌≤◌, ◌≡◌, Bool, true, some, List, [], ◌∷◌, arith}
use advanced_systems_program.Calendar.Event.{Event}
use advanced_systems_program.Calendar.Store.{Node, search}
use advanced_systems_program.Calendar.Store.WellFormed.{nodes_at}

-- A node of the list stands at the address that a search gives.
pub search-nodes_at :
    (p : Event → Bool) (ns : List Node) (n : Node)
    → search p ns ≡ some n
    → 1 ≤ nodes_at n.address ns
unfolding search
search-nodes_at p [] n h = ground arith
search-nodes_at p (m ∷ ms) n h = ground (arith, search-nodes_at p ms n)

pub search-holds :
    (p : Event → Bool) (ns : List Node) (n : Node) → search p ns ≡ some n → p n.event ≡ true
unfolding search
search-holds p [] n h = ground arith
search-holds p (m ∷ ms) n h = ground (arith, search-holds p ms n)
