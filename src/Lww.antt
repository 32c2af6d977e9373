-- ===== src/Lww.antt =====
-- core/crdt/src/graph.rs: the last-writer-wins map, as the incremental winner cache and as the
-- full replay that the tests compare it with.
pub mod Winners
use nodalmerge.Base.{
  ℕ, Bool, true, false, Bytes, List, [], ◌∷◌, Option, none, some, if◌then◌else◌, StringMap, put_str,
  or_else, empty_map, contains, ◌&&◌,
}
use nodalmerge.Base.Prio.{Prio, gtp, zero_prio}
use nodalmerge.Op.{Op, MapOp, Transaction, prio, hash_bytes, map_key}
use nodalmerge.Node.{SyncNode}

pub record MapWinner : Type 0 where
  pub lamport : ℕ
  pub author : ℕ
  pub value : Option Bytes
  pub is_blob : Bool

abbrev pub winner_prio : MapWinner → Prio
winner_prio w = record { lamport = w.lamport; author = w.author }

-- `lww_update`, at the slot of the key
unfoldable pub better : Option MapWinner → MapWinner → MapWinner
better none candidate = candidate
better (some current) candidate =
    if gtp (winner_prio candidate) (winner_prio current) then candidate else current

unfoldable pub lww_update : StringMap MapWinner → Bytes → MapWinner → StringMap MapWinner
unfolding better
lww_update cache key candidate = put_str key (better (cache key) candidate) cache

-- the candidate that `update_state_caches` builds from an operation
unfoldable pub map_candidate : Transaction → MapOp → MapWinner
map_candidate tx (MapOp.set key value) = record {
  lamport = tx.lamport;
  author = tx.author;
  value = some value;
  is_blob = false;
}
map_candidate tx (MapOp.delete key) = record {
  lamport = tx.lamport;
  author = tx.author;
  value = none;
  is_blob = false;
}
map_candidate tx (MapOp.set_blob key blob_hash) = record {
  lamport = tx.lamport;
  author = tx.author;
  value = some (hash_bytes blob_hash);
  is_blob = true;
}

-- `resolve`, `resolve_canonical`, `read_speculative` and `read_canonical`: the value of the winner
unfoldable pub winner_value : Option MapWinner → Option Bytes
winner_value none = none
winner_value (some w) = w.value

unfoldable pub resolve_map : StringMap MapWinner → StringMap Bytes
unfolding winner_value
resolve_map cache key = winner_value (cache key)

-- `resolve_with_meta`
unfoldable pub with_meta : Option MapWinner → Option (ℕ × ℕ × Bytes × Bool)
with_meta none = none
with_meta (some w) = elim w.value [
  | none ↦ none
  | some v ↦ some (w.lamport, w.author, v, w.is_blob)
]

unfoldable pub resolve_with_meta : StringMap MapWinner → StringMap (ℕ × ℕ × Bytes × Bool)
unfolding with_meta
resolve_with_meta cache key = with_meta (cache key)

-- an entry of `resolve_replay`
pub record ReplayEntry : Type 0 where
  pub at : Prio
  pub value : Option Bytes

abbrev pub fresh_entry : ReplayEntry
fresh_entry = record { at = zero_prio; value = none }

unfoldable pub replay_value : MapOp → Option Bytes
replay_value (MapOp.set key value) = some value
replay_value (MapOp.delete key) = none
replay_value (MapOp.set_blob key blob_hash) = some (hash_bytes blob_hash)

-- one operation of `resolve_replay`
unfoldable pub replay_set :
    Transaction → Bytes → Option Bytes → StringMap ReplayEntry → StringMap ReplayEntry
replay_set tx key value per_key =
    let entry : ReplayEntry = or_else (per_key key) fresh_entry in
    put_str key (if gtp (prio tx) entry.at then record { at = prio tx; value = value } else entry)
      per_key

unfoldable pub replay_ops : Transaction → List Op → StringMap ReplayEntry → StringMap ReplayEntry
unfolding replay_set replay_value
replay_ops tx [] per_key = per_key
replay_ops tx (Op.map mop ∷ ops) per_key =
    replay_ops tx ops (replay_set tx (map_key mop) (replay_value mop) per_key)
replay_ops tx (Op.list l ∷ ops) per_key = replay_ops tx ops per_key
replay_ops tx (Op.text t ∷ ops) per_key = replay_ops tx ops per_key

unfoldable pub replay_nodes :
    Bool → List ℕ → List SyncNode → StringMap ReplayEntry → StringMap ReplayEntry
unfolding replay_ops
replay_nodes skip_local local_ids [] per_key = per_key
replay_nodes skip_local local_ids (node ∷ nodes) per_key = replay_nodes skip_local local_ids nodes (
    if skip_local && contains local_ids node.id
    then per_key
    else replay_ops node.transaction node.transaction.ops per_key)

unfoldable pub entry_value : Option ReplayEntry → Option Bytes
entry_value none = none
entry_value (some e) = e.value

unfoldable pub resolve_replay : Bool → List ℕ → List SyncNode → StringMap Bytes
unfolding replay_nodes entry_value
resolve_replay skip_local local_ids nodes key =
    entry_value (replay_nodes skip_local local_ids nodes empty_map key)
