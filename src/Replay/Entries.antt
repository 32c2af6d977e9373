-- ===== src/Replay/Entries.antt =====
-- The entries that core/crdt/src/replay.rs and compaction.rs hash are those of the resolved map.
use nodalmerge.Base.{
  ℕ, ◌≡◌, refl, ap, ◌∙◌, Bool, false, ◌&&◌, ◌||◌, Bytes, List, [], ◌∷◌, Option, none, some, arith,
  if◌then◌else◌, StringMap, bytes_eq, bytes_eq→eq, bytes_cmp, eq_of_bytes_cmp, Bool-cases, inl, inr,
  empty_map,
}
use nodalmerge.Base.Sort.{insert_new}
use nodalmerge.Op.{Op, Transaction, map_key}
use nodalmerge.Node.{SyncNode}
use nodalmerge.Lww.{
  resolve_map, ReplayEntry, replay_set, replay_value, replay_ops, replay_nodes, entry_value,
  resolve_replay,
}
use nodalmerge.Caches.{empty_caches}
use nodalmerge.Caches.Replay.{admit_marked, admit_marked-resolve_replay}
use nodalmerge.Replay.{touched_by_ops, touched_keys, entries_at}

-- `get` on the entries
unfoldable pub find_entry : Bytes → List (Bytes × Bytes) → Option Bytes
find_entry key [] = none
find_entry key ((k, value) ∷ entries) =
    if bytes_eq k key then some value else find_entry key entries

unfoldable pub has_key : Bytes → List Bytes → Bool
has_key key [] = false
has_key key (k ∷ keys) = bytes_eq k key || has_key key keys

unfoldable pub writes_key : Bytes → List Op → Bool
writes_key key [] = false
writes_key key (Op.map mop ∷ ops) = bytes_eq (map_key mop) key || writes_key key ops
writes_key key (Op.list l ∷ ops) = writes_key key ops
writes_key key (Op.text t ∷ ops) = writes_key key ops

unfoldable pub any_writes : Bytes → List SyncNode → Bool
any_writes key [] = false
any_writes key (n ∷ nodes) = writes_key key n.transaction.ops || any_writes key nodes

has_key-insert_new :
    (key k : Bytes) (keys : List Bytes)
    → has_key key (insert_new bytes_cmp k keys) ≡ (bytes_eq k key || has_key key keys)
unfolding has_key insert_new
has_key-insert_new key k [] = refl
has_key-insert_new key k (j ∷ keys) =
    ground (arith, has_key-insert_new key k keys, eq_of_bytes_cmp k j)

has_key-touched_by_ops :
    (key : Bytes) (ops : List Op) (keys : List Bytes)
    → has_key key (touched_by_ops ops keys) ≡ (writes_key key ops || has_key key keys)
unfolding touched_by_ops writes_key
has_key-touched_by_ops key [] keys = refl
has_key-touched_by_ops key (Op.map mop ∷ ops) keys = ground (
  arith,
  has_key-touched_by_ops key ops (insert_new bytes_cmp (map_key mop) keys),
  has_key-insert_new key (map_key mop) keys,
)
has_key-touched_by_ops key (Op.list l ∷ ops) keys = has_key-touched_by_ops key ops keys
has_key-touched_by_ops key (Op.text t ∷ ops) keys = has_key-touched_by_ops key ops keys

has_key-touched_keys :
    (key : Bytes) (nodes : List SyncNode) → has_key key (touched_keys nodes) ≡ any_writes key nodes
unfolding touched_keys any_writes has_key
has_key-touched_keys key [] = refl
has_key-touched_keys key (n ∷ nodes) =
    has_key-touched_by_ops key n.transaction.ops (touched_keys nodes)
    ∙ ap (λ b. writes_key key n.transaction.ops || b) (has_key-touched_keys key nodes)

find_entry-entries_at :
    (keep : Bytes → Bool) (key : Bytes) (keys : List Bytes) (m : StringMap Bytes)
    → find_entry key (entries_at keep keys m)
      ≡ (if has_key key keys && keep key then m key else none)
unfolding find_entry entries_at has_key
find_entry-entries_at keep key [] m = refl
find_entry-entries_at keep key (k ∷ keys) m = elim (Bool-cases (bytes_eq k key)) [
  | inl here ↦
      let e : k ≡ key = bytes_eq→eq k key here in
      let value : m k ≡ m key = ap m e in
      let kept : keep k ≡ keep key = ap keep e in
      ground (arith, find_entry-entries_at keep key keys m)
  | inr other ↦ ground (arith, find_entry-entries_at keep key keys m)
]

replay_ops-unwritten :
    (tx : Transaction) (key : Bytes) (ops : List Op) (m : StringMap ReplayEntry)
    → writes_key key ops ≡ false
    → replay_ops tx ops m key ≡ m key
unfolding replay_ops writes_key replay_set
replay_ops-unwritten tx key [] m h = refl
replay_ops-unwritten tx key (Op.map mop ∷ ops) m h =
    let other : bytes_eq (map_key mop) key ≡ false = ground arith in
    replay_ops-unwritten tx key ops (replay_set tx (map_key mop) (replay_value mop) m)
      (ground arith)
    ∙ rw other refl
replay_ops-unwritten tx key (Op.list l ∷ ops) m h = replay_ops-unwritten tx key ops m h
replay_ops-unwritten tx key (Op.text t ∷ ops) m h = replay_ops-unwritten tx key ops m h

replay_nodes-unwritten :
    (local_ids : List ℕ) (key : Bytes) (nodes : List SyncNode) (m : StringMap ReplayEntry)
    → any_writes key nodes ≡ false
    → replay_nodes false local_ids nodes m key ≡ m key
unfolding replay_nodes any_writes
replay_nodes-unwritten local_ids key [] m h = refl
replay_nodes-unwritten local_ids key (n ∷ nodes) m h =
    replay_nodes-unwritten local_ids key nodes (replay_ops n.transaction n.transaction.ops m)
      (ground arith)
    ∙ replay_ops-unwritten n.transaction key n.transaction.ops m (ground arith)

resolve_replay-unwritten :
    (local_ids : List ℕ) (key : Bytes) (nodes : List SyncNode)
    → any_writes key nodes ≡ false
    → resolve_replay false local_ids nodes key ≡ none
unfolding resolve_replay entry_value
resolve_replay-unwritten local_ids key nodes h =
    rw (replay_nodes-unwritten local_ids key nodes empty_map h) refl

-- The entries that are hashed are those of the map that the caches show for the admitted nodes, less
-- the keys that the filter drops: each key has the value that it has there, or none.
pub entries_at-admit_marked :
    (local_ids : List ℕ) (nodes : List SyncNode) (keep : Bytes → Bool) (key : Bytes)
    → find_entry key (
        entries_at keep
          (touched_keys nodes)
          (resolve_map (admit_marked local_ids nodes empty_caches).map_all))
      ≡ (if keep key
          then resolve_map (admit_marked local_ids nodes empty_caches).map_all key
          else none)
entries_at-admit_marked local_ids nodes keep key =
    let m : StringMap Bytes = resolve_map (admit_marked local_ids nodes empty_caches).map_all in
    let value : m key ≡ resolve_replay false local_ids nodes key =
      ap (λ (f : StringMap Bytes). f key) (admit_marked-resolve_replay local_ids nodes).0 in
    find_entry-entries_at keep key (touched_keys nodes) m
    ∙ elim (Bool-cases (any_writes key nodes)) [
      | inl written ↦ ground (arith, has_key-touched_keys key nodes)
      | inr unwritten ↦ ground (
        arith,
        has_key-touched_keys key nodes,
        resolve_replay-unwritten local_ids key nodes unwritten,
      )
    ]
