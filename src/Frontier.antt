-- ===== src/Frontier.antt =====
-- core/crdt/src/frontier.rs: the sorted tips of the graph, as they are sent to a peer.
pub mod Tips
use Prim.Native.Nat.{compare}
use nodalmerge.Base.{
  ℕ, Bool, true, false, not, List, [], ◌∷◌, ◌++◌, ◌==◌, if◌then◌else◌, contains, retain, length,
}
use nodalmerge.Base.Sort.{sort}
use nodalmerge.Node.{SyncNode}

pub record Frontier : Type 0 where
  pub heads : List ℕ

abbrev pub empty_frontier : Frontier
empty_frontier = record { heads = [] }

-- `dedup`: an element that equals the one before it goes
unfoldable pub dedup : List ℕ → List ℕ
dedup [] = []
dedup (a ∷ []) = a ∷ []
dedup (a ∷ b ∷ l) = let rest = dedup (b ∷ l) in if a == b then rest else a ∷ rest

unfoldable pub from_heads : List ℕ → Frontier
unfolding dedup
from_heads heads = record { heads = dedup (sort compare heads) }

-- `retain(|h| h != parent)`, for each parent in turn
unfoldable pub remove_each : List ℕ → List ℕ → List ℕ
remove_each [] heads = heads
remove_each (p ∷ parents) heads = remove_each parents (retain (λ h. not (h == p)) heads)

-- the push of a new head, unless it is there
unfoldable pub push_new : ℕ → List ℕ → List ℕ
push_new id heads = if contains heads id then heads else heads ++ id ∷ []

unfoldable pub advance : SyncNode → Frontier → Frontier
unfolding remove_each push_new
advance new_node f = record {
  heads = sort compare (push_new new_node.id (remove_each new_node.transaction.parents f.heads));
}
