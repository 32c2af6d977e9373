-- ===== src/Caches.antt =====
-- core/crdt/src/graph.rs: the materialized views `StateCaches`, and how one admitted node is folded
-- into them by `update_state_caches`.
pub mod Slots
pub mod Converge
pub mod Replay
pub mod Lists
use nodalmerge.Base.{
  ℕ, Bool, true, false, Bytes, List, [], ◌∷◌, Option, none, some, ◌==◌, if◌then◌else◌, StringMap,
  empty_map, or_else, bytes_eq,
}
use nodalmerge.Base.Prio.{Prio, eqp, zero_prio}
use nodalmerge.Op.{Op, MapOp, ListOp, Transaction, prio, map_key}
use nodalmerge.Node.{SyncNode}
use nodalmerge.Lww.{MapWinner, lww_update, map_candidate}
use nodalmerge.ListCrdt.{ListCacheState, update_list_cache}
use nodalmerge.Conflicts.{
  ConflictEvent, ConflictOp, ListConflictState, no_list_conflicts, map_conflict, position_conflict,
  note_position, delete_events, note_delete, push_all, push_option,
}

pub record StateCaches : Type 0 where
  pub map_all : StringMap MapWinner
  pub map_canonical : StringMap MapWinner
  pub lists : StringMap ListCacheState
  pub blob_hashes : ℕ → Bool
  pub conflict_stream_enabled : Bool
  pub pending_conflicts : List ConflictEvent
  pub list_conflict_state : Bytes → ℕ → Option ListConflictState

abbrev pub empty_caches : StateCaches
empty_caches = record {
  map_all = empty_map;
  map_canonical = empty_map;
  lists = empty_map;
  blob_hashes = λ h. false;
  conflict_stream_enabled = false;
  pending_conflicts = [];
  list_conflict_state = λ key item. none;
}

-- `blob_hashes.insert`, for a `SetBlob`
unfoldable pub note_blob : MapOp → (ℕ → Bool) → ℕ → Bool
note_blob (MapOp.set key value) hashes h = hashes h
note_blob (MapOp.delete key) hashes h = hashes h
note_blob (MapOp.set_blob key blob_hash) hashes h = if blob_hash == h then true else hashes h

-- the `Op::Map` arm
unfoldable pub apply_map_op : Transaction → Bool → MapOp → StateCaches → StateCaches
unfolding note_blob
apply_map_op tx canonical mop s =
    let key = map_key mop in
    let candidate = map_candidate tx mop in
    record s {
      blob_hashes = note_blob mop s.blob_hashes;
      pending_conflicts =
          if s.conflict_stream_enabled
          then push_option s.pending_conflicts (map_conflict key candidate (s.map_all key))
          else s.pending_conflicts;
      map_all = lww_update s.map_all key candidate;
      map_canonical =
          if canonical then lww_update s.map_canonical key candidate else s.map_canonical;
    }

unfoldable pub put_conflict_state :
    Bytes
    → ℕ
    → ListConflictState
    → (Bytes → ℕ → Option ListConflictState)
    → Bytes
    → ℕ
    → Option ListConflictState
put_conflict_state key item st states k i =
    if bytes_eq key k then (if item == i then some st else states k i) else states k i

-- the `Insert` and `Move` arm of `update_list_conflict_state`
unfoldable pub position_conflict_state : Bytes → ℕ → ConflictOp → Prio → StateCaches → StateCaches
unfolding put_conflict_state
position_conflict_state key item cop at s =
    let st = or_else (s.list_conflict_state key item) no_list_conflicts in
    record s {
      list_conflict_state =
          put_conflict_state key item (note_position (at, cop) st) s.list_conflict_state;
      pending_conflicts = push_option s.pending_conflicts (position_conflict key item (at, cop) st);
    }

-- the `Delete` arm of `update_list_conflict_state`
unfoldable pub delete_conflict_state : Bytes → ℕ → Prio → StateCaches → StateCaches
unfolding put_conflict_state
delete_conflict_state key item at s =
    let st = or_else (s.list_conflict_state key item) no_list_conflicts in
    record s {
      list_conflict_state = put_conflict_state key item (note_delete at st) s.list_conflict_state;
      pending_conflicts = elim st.delete_winner [
        | none ↦ push_all s.pending_conflicts (delete_events key item at st.pos_ops)
        | some d ↦ s.pending_conflicts
      ];
    }

unfoldable pub list_conflict_arm : ListOp → Prio → StateCaches → StateCaches
unfolding position_conflict_state delete_conflict_state
list_conflict_arm (ListOp.insert key item position) at s =
    position_conflict_state key item (ConflictOp.list_insert item) at s
list_conflict_arm (ListOp.move key item position) at s =
    position_conflict_state key item (ConflictOp.list_move item) at s
list_conflict_arm (ListOp.delete key item) at s = delete_conflict_state key item at s

unfoldable pub update_list_conflict_state : ListOp → Prio → StateCaches → StateCaches
unfolding list_conflict_arm
update_list_conflict_state lop at s =
    if s.conflict_stream_enabled then list_conflict_arm lop at s else s

-- the `Op::List` arm
unfoldable pub apply_list_op : Transaction → ListOp → StateCaches → StateCaches
apply_list_op tx lop s =
    let s' = update_list_conflict_state lop (prio tx) s in
    record s' { lists = update_list_cache s'.lists lop (prio tx) }

unfoldable pub apply_op : Transaction → Bool → Op → StateCaches → StateCaches
unfolding apply_map_op apply_list_op
apply_op tx canonical (Op.map mop) s = apply_map_op tx canonical mop s
apply_op tx canonical (Op.list lop) s = apply_list_op tx lop s
apply_op tx canonical (Op.text t) s = s

unfoldable pub apply_ops : Transaction → Bool → List Op → StateCaches → StateCaches
unfolding apply_op
apply_ops tx canonical [] s = s
apply_ops tx canonical (op ∷ ops) s = apply_ops tx canonical ops (apply_op tx canonical op s)

unfoldable pub update_state_caches : SyncNode → Bool → StateCaches → StateCaches
unfolding apply_ops
update_state_caches node canonical s =
    if eqp (prio node.transaction) zero_prio
    then s
    else apply_ops node.transaction canonical node.transaction.ops s

-- `set_conflict_stream_enabled`
unfoldable pub set_conflict_stream_enabled : Bool → StateCaches → StateCaches
set_conflict_stream_enabled enabled s = record s { conflict_stream_enabled = enabled }

-- `drain_pending_conflicts`: the events, and the caches without them
unfoldable pub drain_pending_conflicts : StateCaches → List ConflictEvent × StateCaches
drain_pending_conflicts s = (s.pending_conflicts, record s { pending_conflicts = [] })
