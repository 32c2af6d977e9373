-- ===== src/Compaction.antt =====
-- core/crdt/src/compaction.rs: snapshot nodes, their verification, and the graph that is rebuilt
-- from one. The postcard forms of ids, timelines and packs are parameters. The clock of a snapshot is
-- one past the graph's, and wraps round as in a release build.
pub mod Receive
pub mod Fields
pub mod Snapshots
pub mod Rebuild
use Prim.Native.Nat.{compare}
use nodalmerge.Base.{
  ℕ, ◌+◌, ◌%◌, Bool, true, false, not, ◌&&◌, Bytes, List, [], ◌∷◌, ◌++◌, Option, none, some, ◌==◌,
  if◌then◌else◌, length, bytes_eq,
}
use nodalmerge.Base.Endian.{le_bytes, from_le_bytes, from_be_bytes}
use nodalmerge.Base.Sort.{sort}
use nodalmerge.Op.{Op, MapOp, Transaction, hash_bytes}
use nodalmerge.Error.{SyncError, Result, ok, err}
use nodalmerge.Node.{SyncNode, new_signed, verify_signature}
use nodalmerge.Graph.{StateGraph, Env, new_graph, snap_hash_key, is_snapshot_node, u64_max}
use nodalmerge.Graph.Remote.{apply_remote}
use nodalmerge.Replay.{
  PolicyTimelineEntry, sorted_timeline, policy_timeline_cutover_lamport, canonical_hash,
  resolved_entries, retry_loop,
}

abbrev pub snap_front_key : Bytes
snap_front_key = 0 ∷ b's' ∷ b'n' ∷ b'a' ∷ b'p' ∷ b':' ∷ b'f' ∷ b'r' ∷ b'o' ∷ b'n' ∷ b't' ∷ []

abbrev pub snap_base_key : Bytes
snap_base_key = 0 ∷ b's' ∷ b'n' ∷ b'a' ∷ b'p' ∷ b':' ∷ b'b' ∷ b'a' ∷ b's' ∷ b'e' ∷ []

abbrev pub snap_policy_prefix : Bytes
snap_policy_prefix =
    0 ∷ b's' ∷ b'n' ∷ b'a' ∷ b'p' ∷ b':' ∷ b'p' ∷ b'o' ∷ b'l' ∷ b'i' ∷ b'c' ∷ b'y' ∷ b':' ∷ []

abbrev pub snap_policy_timeline_hash_key : Bytes
snap_policy_timeline_hash_key = snap_policy_prefix ++ (b'h' ∷ b'a' ∷ b's' ∷ b'h' ∷ [])

abbrev pub snap_policy_cutover_lamport_key : Bytes
snap_policy_cutover_lamport_key =
    snap_policy_prefix ++ (b'c' ∷ b'u' ∷ b't' ∷ b'o' ∷ b'v' ∷ b'e' ∷ b'r' ∷ [])

-- what the code uses of postcard
pub record ArchiveCodec : Type 0 where
  pub encode_ids : List ℕ → Option Bytes
  pub decode_ids : Bytes → Option (List ℕ)
  pub encode_timeline : List PolicyTimelineEntry → Bytes
  pub encode_nodes : List SyncNode → Bytes
  pub decode_nodes : Bytes → Result (List SyncNode)

-- `SyncError::HashMismatch` of two zero hashes
abbrev pub malformed : {A : Type 0} → Result A
malformed = err (SyncError.hash_mismatch 0 0)

-- `!k.starts_with('\x00')`
unfoldable pub is_user_key : Bytes → Bool
is_user_key [] = true
is_user_key (b ∷ bytes) = not (b == 0)

abbrev pub set_op : Bytes → Bytes → Op
set_op key value = Op.map (MapOp.set key value)

unfoldable pub cutover_ops : Option ℕ → List Op
cutover_ops none = []
cutover_ops (some cutover) = set_op snap_policy_cutover_lamport_key (le_bytes 8 cutover) ∷ []

unfoldable pub base_ops : Option ℕ → List Op
base_ops none = []
base_ops (some id) = set_op snap_base_key (hash_bytes id) ∷ []

module _ {P : Type 0} (env : Env P) (codec : ArchiveCodec) where
  open env use {crypto}
  open codec use {encode_ids, encode_timeline}

  unfoldable pub policy_timeline_hash : List PolicyTimelineEntry → ℕ
  policy_timeline_hash timeline = crypto.blake3 (encode_timeline (sorted_timeline timeline))

  unfoldable pub policy_timeline_ops : List PolicyTimelineEntry → List Op
  unfolding cutover_ops
  policy_timeline_ops [] = []
  policy_timeline_ops (entry ∷ timeline) =
      set_op snap_policy_timeline_hash_key (hash_bytes (policy_timeline_hash (entry ∷ timeline)))
      ∷ cutover_ops (policy_timeline_cutover_lamport (entry ∷ timeline))

  -- the transaction of a snapshot, full or chained to a base
  unfoldable pub snapshot_transaction :
      StateGraph P → crypto.SigningKey → Option ℕ → List PolicyTimelineEntry → Bytes → Transaction
  unfolding base_ops
  snapshot_transaction g key base timeline frontier_bytes = record {
    author = crypto.verifying_key key;
    lamport = (g.lamport + 1) % (u64_max + 1);
    wall_ms = 0;
    ops =
        set_op snap_hash_key (hash_bytes (canonical_hash crypto (resolved_entries is_user_key g)))
        ∷ set_op snap_front_key frontier_bytes
        ∷ (base_ops base ++ policy_timeline_ops timeline);
    parents = [];
  }

  unfoldable pub compact_from :
      StateGraph P → crypto.SigningKey → Option ℕ → List PolicyTimelineEntry → Result SyncNode
  compact_from g key base timeline = elim (encode_ids (sort compare g.frontier.heads)) [
    | none ↦ malformed
    | some frontier_bytes ↦
        ok (new_signed crypto (snapshot_transaction g key base timeline frontier_bytes) key)
  ]

  unfoldable pub compact_with_policy_timeline :
      StateGraph P → crypto.SigningKey → List PolicyTimelineEntry → Result SyncNode
  compact_with_policy_timeline g key timeline = compact_from g key none timeline

  unfoldable pub compact : StateGraph P → crypto.SigningKey → Result SyncNode
  compact g key = compact_with_policy_timeline g key []

  unfoldable pub compact_incremental_with_policy_timeline :
      StateGraph P → crypto.SigningKey → ℕ → List PolicyTimelineEntry → Result SyncNode
  compact_incremental_with_policy_timeline g key base timeline =
      compact_from g key (some base) timeline

  unfoldable pub compact_incremental : StateGraph P → crypto.SigningKey → ℕ → Result SyncNode
  compact_incremental g key base = compact_incremental_with_policy_timeline g key base []
