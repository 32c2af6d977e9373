-- ===== src/Compaction/Receive.antt =====
-- `verify_snapshot`, `rebuild_from_snapshot` and the packs of core/crdt/src/compaction.rs.
use nodalmerge.Base.{
  ℕ, Bool, true, false, ◌&&◌, Bytes, List, [], ◌∷◌, Option, none, some, ◌==◌, if◌then◌else◌, length,
  bytes_eq,
}
use nodalmerge.Base.Endian.{from_le_bytes, from_be_bytes}
use nodalmerge.Op.{Op, MapOp}
use nodalmerge.Error.{SyncError, Result, ok, err}
use nodalmerge.Node.{SyncNode, verify_signature}
use nodalmerge.Graph.{StateGraph, Env, new_graph, snap_hash_key, is_snapshot_node}
use nodalmerge.Graph.Remote.{apply_remote}
use nodalmerge.Replay.{PolicyTimelineEntry, policy_timeline_cutover_lamport, retry_loop}
use nodalmerge.Compaction.{
  ArchiveCodec, malformed, snap_front_key, snap_base_key, snap_policy_timeline_hash_key,
  snap_policy_cutover_lamport_key, policy_timeline_hash,
}

pub record SnapshotMeta : Type 0 where
  pub snapshot_hash : ℕ
  pub frontier : List ℕ
  pub author : ℕ
  pub base_id : Option ℕ
  pub policy_timeline_hash : Option ℕ
  pub policy_cutover_lamport : Option ℕ

-- `<[u8; 32]>::try_from` and `<[u8; 8]>::try_from`
unfoldable pub to_hash : Bytes → Option ℕ
to_hash value = if length value == 32 then some (from_be_bytes value) else none

unfoldable pub to_u64 : Bytes → Option ℕ
to_u64 value = if length value == 8 then some (from_le_bytes value) else none

-- a field that a value of the right size sets
unfoldable pub set_if : Option ℕ → Option ℕ → Option ℕ
set_if none before = before
set_if (some n) before = some n

-- the local variables of `verify_snapshot`
pub record SnapshotFields : Type 0 where
  pub snap_hash : Option ℕ
  pub front : Option (List ℕ)
  pub base : Option ℕ
  pub timeline_hash : Option ℕ
  pub cutover : Option ℕ

abbrev pub no_fields : SnapshotFields
no_fields = record {
  snap_hash = none;
  front = none;
  base = none;
  timeline_hash = none;
  cutover = none;
}

unfoldable pub eq_option : Option ℕ → Option ℕ → Bool
eq_option none none = true
eq_option (some a) (some b) = a == b
eq_option none (some b) = false
eq_option (some a) none = false

unfoldable pub is_unset : Option ℕ → Bool
is_unset none = true
is_unset (some a) = false

module _ {P : Type 0} (env : Env P) (codec : ArchiveCodec) where
  open env use {crypto}
  open codec use {decode_ids, encode_nodes, decode_nodes}

  -- one operation in the loop of `verify_snapshot`
  unfoldable pub read_set : Bytes → Bytes → SnapshotFields → Result SnapshotFields
  unfolding to_hash to_u64 set_if
  read_set key value fields =
      if bytes_eq key snap_hash_key
      then elim (to_hash value) [
        | none ↦ malformed
        | some h ↦ ok (record fields { snap_hash = some h })
      ]
      else if bytes_eq key snap_front_key
      then elim (decode_ids value) [
        | none ↦ malformed
        | some ids ↦ ok (record fields { front = some ids })
      ]
      else if bytes_eq key snap_base_key
      then ok (record fields { base = set_if (to_hash value) fields.base })
      else if bytes_eq key snap_policy_timeline_hash_key
      then ok (record fields { timeline_hash = set_if (to_hash value) fields.timeline_hash })
      else if bytes_eq key snap_policy_cutover_lamport_key
      then ok (record fields { cutover = set_if (to_u64 value) fields.cutover })
      else ok fields

  unfoldable pub read_op : Op → SnapshotFields → Result SnapshotFields
  read_op (Op.map (MapOp.set key value)) fields = read_set key value fields
  read_op (Op.map (MapOp.delete key)) fields = ok fields
  read_op (Op.map (MapOp.set_blob key blob_hash)) fields = ok fields
  read_op (Op.list l) fields = ok fields
  read_op (Op.text t) fields = ok fields

  unfoldable pub read_ops : List Op → SnapshotFields → Result SnapshotFields
  read_ops [] fields = ok fields
  read_ops (op ∷ ops) fields = elim (read_op op fields) [
    | err e ↦ err e
    | ok next ↦ read_ops ops next
  ]

  -- the two fields that a snapshot must have
  unfoldable pub snapshot_meta : ℕ → SnapshotFields → Result SnapshotMeta
  snapshot_meta author fields = elim fields.snap_hash [
    | none ↦ malformed
    | some h ↦ elim fields.front [
      | none ↦ malformed
      | some ids ↦ ok (record {
        snapshot_hash = h;
        frontier = ids;
        author = author;
        base_id = fields.base;
        policy_timeline_hash = fields.timeline_hash;
        policy_cutover_lamport = fields.cutover;
      })
    ]
  ]

  unfoldable pub verify_snapshot : SyncNode → Result SnapshotMeta
  verify_snapshot node = elim (verify_signature crypto node) [
    | err e ↦ err e
    | ok _ ↦ elim (read_ops node.transaction.ops no_fields) [
      | err e ↦ err e
      | ok fields ↦ snapshot_meta node.transaction.author fields
    ]
  ]

  unfoldable pub snapshot_policy_timeline_compatible :
      SnapshotMeta → List PolicyTimelineEntry → Bool
  unfolding is_unset eq_option
  snapshot_policy_timeline_compatible meta timeline =
      if is_unset meta.policy_timeline_hash && is_unset meta.policy_cutover_lamport
      then true
      else eq_option meta.policy_timeline_hash (some (policy_timeline_hash env codec timeline))
        && eq_option meta.policy_cutover_lamport (policy_timeline_cutover_lamport timeline)

  -- the graph of the loop, whatever is left
  unfoldable pub rebuilt : Result (List SyncNode × StateGraph P) → Result (StateGraph P)
  rebuilt (err e) = err e
  rebuilt (ok (left, g)) = ok g

  unfoldable pub rebuild_from_snapshot : P → SyncNode → List SyncNode → Result (StateGraph P)
  unfolding rebuilt
  rebuild_from_snapshot projections snapshot delta = elim (verify_snapshot snapshot) [
    | err e ↦ err e
    | ok _ ↦
        let r = apply_remote env snapshot (new_graph projections) in
        elim r.1 [
          | err e ↦ err e
          | ok _ ↦ rebuilt (retry_loop env (λ node g. g) (length delta) delta r.0)
        ]
  ]

  unfoldable pub pack_snapshot_pack : SyncNode → List SyncNode → Bytes
  pack_snapshot_pack snapshot delta = encode_nodes (snapshot ∷ delta)

  unfoldable pub unpack_snapshot_pack : Bytes → Result (SyncNode × List SyncNode)
  unpack_snapshot_pack bytes = elim (decode_nodes bytes) [
    | err e ↦ err e
    | ok nodes ↦ elim nodes [
      | [] ↦ err (SyncError.missing_parent 0)
      | snapshot ∷ delta ↦
          if is_snapshot_node snapshot
          then ok (snapshot, delta)
          else err (SyncError.hash_mismatch 0 snapshot.id)
    ]
  ]
