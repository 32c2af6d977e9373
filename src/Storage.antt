-- ===== src/Storage.antt =====
-- core/crdt/src/storage.rs: the in-memory stores. A hash map is a list of its entries, in an order
-- that is not the program's.
use nodalmerge.Base.{
  ℕ, Bool, true, false, List, [], ◌∷◌, map, Option, none, some, ◌==◌, if◌then◌else◌, length,
}
use nodalmerge.Node.{SyncNode}

pub record MemoryNodeStore : Type 0 where
  pub entries : List SyncNode

abbrev pub empty_store : MemoryNodeStore
empty_store = record { entries = [] }

unfoldable pub insert_entry : SyncNode → List SyncNode → List SyncNode
insert_entry node [] = node ∷ []
insert_entry node (n ∷ entries) =
    if n.id == node.id then node ∷ entries else n ∷ insert_entry node entries

-- `put` never fails here
unfoldable pub put : SyncNode → MemoryNodeStore → MemoryNodeStore
unfolding insert_entry
put node store = record { entries = insert_entry node store.entries }

unfoldable pub find_node : ℕ → List SyncNode → Option SyncNode
find_node id [] = none
find_node id (n ∷ entries) = if n.id == id then some n else find_node id entries

unfoldable pub get : ℕ → MemoryNodeStore → Option SyncNode
unfolding find_node
get id store = find_node id store.entries

unfoldable pub holds : List SyncNode → ℕ → Bool
holds [] id = false
holds (n ∷ entries) id = if n.id == id then true else holds entries id

-- `contains`
unfoldable pub contains_node : MemoryNodeStore → ℕ → Bool
unfolding holds
contains_node store id = holds store.entries id

unfoldable pub all_ids : MemoryNodeStore → List ℕ
all_ids store = map (λ (n : SyncNode). n.id) store.entries

unfoldable pub node_count : MemoryNodeStore → ℕ
node_count store = length store.entries
