-- ===== src/Tests/Archives.antt =====
-- Replay, snapshots and rebuilt graphs at concrete inputs.
use Prim.Native.Nat.{compare}
use nodalmerge.Base.{
  ℕ, ◌+◌, ◌%◌, ◌^◌, ◌<◌, ◌≡◌, ◌⊎◌, refl, sym, true, false, Bytes, List, [], ◌∷◌, none, some, arith,
  ◌==◌, ==_iff, All, length, any, bytes_eq, contains, retain,
}
use nodalmerge.Base.Sort.{sort, insert}
use nodalmerge.Op.{op_key, map_key, hash_bytes}
use nodalmerge.Error.{SyncError, Result, ok, err}
use nodalmerge.Policy.{open_policy, can_write, is_allow_all, rules_allow}
use nodalmerge.Storage.{contains_node, holds, put}
use nodalmerge.Frontier.{push_new}
use nodalmerge.Node.{SyncNode, Crypto, transaction_hash, verify_signature, is_zero, new_signed}
use nodalmerge.Graph.{
  StateGraph, Env, new_graph, saturating_add, lamport_slack, set_policy, check_lamport_ceiling,
  missing_parent, is_snapshot_node, sets_snapshot_hash, violated_key, insert_node, inserted,
}
use nodalmerge.Graph.Valid.{IsValid}
use nodalmerge.Graph.Remote.{
  apply_remote, apply_remote_checked, check_node, check_hash, verify_once, check_skew,
  apply_remote_verified, apply_remote_verified_no_projection, policy_violation,
}
use nodalmerge.Graph.Admission.{is_ok}
use nodalmerge.Replay.{
  PolicyTimelineEntry, by_lamport, sorted_timeline, policy_for_lamport, attempt_of, defer,
  retry_pass, retry_loop, prepare_policy, unless_pending, replay_graph,
  policy_timeline_cutover_lamport,
}
use nodalmerge.Replay.Settle.{IsStored, IsOrphan}
use nodalmerge.Replay.Keeps.{replay_graph-IsStored}
use nodalmerge.Replay.Canonical.{canonical_bytes-injective}
use nodalmerge.Replay.Timeline.{
  last_policy, in_force, policy_for_lamport-last_policy, replay_graph-ceiling,
}
use nodalmerge.Compaction.{ArchiveCodec, compact_from, snapshot_transaction, policy_timeline_ops}
use nodalmerge.Compaction.Receive.{
  verify_snapshot, snapshot_policy_timeline_compatible, rebuild_from_snapshot, rebuilt, read_ops,
  read_op, read_set, to_hash, set_if, snapshot_meta,
}
use nodalmerge.Compaction.Snapshots.{described, verify_snapshot-compact_from, snapshot-young}
use nodalmerge.Compaction.Rebuild.{rebuild_from_snapshot-IsStored}
use nodalmerge.Tests.Graphs.{toy_env, empty_graph, edit}

-- a hash below 1000, and the signatures of the other tests
abbrev small_crypto : Crypto
small_crypto = record {
  SigningKey = ℕ;
  to_allocvec = λ tx. tx.lamport ∷ tx.author ∷ [];
  blake3 = λ bytes. elim bytes [ [] ↦ 0 | a ∷ rest ↦ a % 1000 ];
  verifying_key = λ key. key;
  sign_id = λ key id. id + key;
  verify_id = λ author id signature. (id + author) == signature;
}

abbrev small_env : Env ℕ
small_env = record {
  crypto = small_crypto;
  project = toy_env.project;
  project_batch = toy_env.project_batch;
}

abbrev toy_codec : ArchiveCodec
toy_codec = record {
  encode_ids = λ ids. some ids;
  decode_ids = λ bytes. some bytes;
  encode_timeline = λ timeline. length timeline ∷ [];
  encode_nodes = λ nodes. [];
  decode_nodes = λ bytes. ok [];
}

abbrev node_at : ℕ → List ℕ → SyncNode
node_at lamport parents = record {
  id = lamport % 1000;
  transaction = record {
    author = 7;
    lamport = lamport;
    wall_ms = 0;
    ops = edit;
    parents = parents;
  };
  signature = lamport % 1000 + 7;
}

abbrev root : SyncNode
root = node_at 3 []

abbrev child : SyncNode
child = node_at 4 (3 ∷ [])

abbrev orphan : SyncNode
orphan = node_at 5 (77 ∷ [])

abbrev policies : List PolicyTimelineEntry
policies =
    record { effective_lamport = 0; policy = open_policy }
    ∷ record { effective_lamport = 4; policy = open_policy }
    ∷ []

abbrev graph_or : Result (StateGraph ℕ) → StateGraph ℕ
graph_or (ok g) = g
graph_or (err e) = empty_graph

-- the child comes before its parent
abbrev replayed : Result (StateGraph ℕ)
replayed = replay_graph small_env 0 (child ∷ root ∷ []) policies

replay_succeeds : replayed ≡ ok (graph_or replayed)
unfolding replay_graph retry_loop retry_pass attempt_of defer unless_pending apply_remote
    apply_remote_checked check_node check_hash transaction_hash check_lamport_ceiling saturating_add
    verify_once check_skew contains verify_signature is_zero apply_remote_verified
    apply_remote_verified_no_projection missing_parent policy_violation is_snapshot_node
    sets_snapshot_hash any bytes_eq violated_key op_key map_key can_write is_allow_all rules_allow
    insert_node contains_node holds inserted put prepare_policy set_policy sorted_timeline sort
    insert by_lamport policy_for_lamport push_new
replay_succeeds = refl

replay_graph-IsStored_example :
    IsValid (graph_or replayed) × All (IsStored (graph_or replayed)) (child ∷ root ∷ [])
replay_graph-IsStored_example =
    replay_graph-IsStored small_env 0 (child ∷ root ∷ []) policies replay_succeeds

policy_for_lamport-last_policy_example :
    policy_for_lamport 3 policies open_policy
    ≡ last_policy (retain (in_force 3) policies) open_policy
unfolding by_lamport
policy_for_lamport-last_policy_example =
    policy_for_lamport-last_policy 3 policies open_policy (ground arith, tt)

replay_graph-ceiling_example :
    replay_graph small_env 0 (node_at 2000000 [] ∷ root ∷ []) policies
    ≡ err (SyncError.lamport_ceiling 0 2000000 lamport_slack)
unfolding transaction_hash
replay_graph-ceiling_example =
    replay_graph-ceiling small_env 0 (node_at 2000000 []) (root ∷ []) policies refl (omega arith)

abbrev toy_map : List (Bytes × Bytes)
toy_map = (b't' ∷ [], b'x' ∷ []) ∷ []

canonical_bytes-injective_example : toy_map ≡ toy_map
canonical_bytes-injective_example =
    canonical_bytes-injective toy_map toy_map ((omega arith, omega arith), tt)
      ((omega arith, omega arith), tt) refl

-- a snapshot by the key 9
abbrev snapshot : SyncNode
snapshot =
    new_signed small_crypto
      (snapshot_transaction small_env toy_codec (graph_or replayed) 9 (some 6) policies
        (sort compare (graph_or replayed).frontier.heads))
      9

made : compact_from small_env toy_codec (graph_or replayed) 9 (some 6) policies ≡ ok snapshot
unfolding compact_from
made = refl

signs : (id : ℕ) → ((id + 9) == (id + 9)) ≡ true
signs id = (==_iff (id + 9) (id + 9)).1 refl

small : (bytes : Bytes) → small_crypto.blake3 bytes < 2 ^ 256
small [] = omega arith
small (a ∷ rest) = omega arith

verify_snapshot-compact_from_example :
    (verify_snapshot small_env toy_codec snapshot
      ≡ ok (described small_env toy_codec (graph_or replayed) 9 (some 6) policies))
    × (snapshot_policy_timeline_compatible small_env toy_codec
          (described small_env toy_codec (graph_or replayed) 9 (some 6) policies)
          policies
        ≡ true)
unfolding policy_timeline_cutover_lamport
verify_snapshot-compact_from_example =
    verify_snapshot-compact_from small_env toy_codec (graph_or replayed) 9 (some 6) policies signs
      (λ ids b e. sym e) small (omega arith) (omega arith) made

-- a graph whose clock has left the slack of a new one behind
abbrev old_graph : StateGraph ℕ
old_graph = record empty_graph { lamport = 2000000 }

abbrev old_snapshot : SyncNode
old_snapshot =
    new_signed small_crypto (snapshot_transaction small_env toy_codec old_graph 9 none [] []) 9

old_made : compact_from small_env toy_codec old_graph 9 none [] ≡ ok old_snapshot
unfolding compact_from sort
old_made = refl

snapshot-young_example : is_ok (apply_remote small_env old_snapshot (new_graph 0)).1 ≡ false
snapshot-young_example =
    snapshot-young small_env toy_codec 0 old_graph 9 none [] signs (omega arith) old_made

-- a snapshot of a graph with an early clock, with a node on it and one without its parent
abbrev young_snapshot : SyncNode
young_snapshot =
    new_signed small_crypto
      (snapshot_transaction small_env toy_codec (record empty_graph { lamport = 1 }) 9 none [] []) 9

abbrev delta : List SyncNode
delta = orphan ∷ node_at 3 (2 ∷ []) ∷ []

abbrev rebuilt_graph : Result (StateGraph ℕ)
rebuilt_graph = rebuild_from_snapshot small_env toy_codec 0 young_snapshot delta

rebuild_succeeds : rebuilt_graph ≡ ok (graph_or rebuilt_graph)
unfolding rebuild_from_snapshot rebuilt verify_snapshot read_ops read_op read_set to_hash set_if
    snapshot_meta new_signed snapshot_transaction retry_loop retry_pass attempt_of defer
    apply_remote apply_remote_checked check_node check_hash transaction_hash check_lamport_ceiling
    saturating_add verify_once check_skew contains verify_signature is_zero apply_remote_verified
    apply_remote_verified_no_projection missing_parent policy_violation is_snapshot_node
    sets_snapshot_hash any bytes_eq violated_key op_key map_key can_write is_allow_all rules_allow
    insert_node contains_node holds inserted put push_new hash_bytes policy_timeline_ops
rebuild_succeeds = refl

rebuild_from_snapshot-IsStored_example :
    IsValid (graph_or rebuilt_graph)
    × IsStored (graph_or rebuilt_graph) young_snapshot
    × All (λ n. IsStored (graph_or rebuilt_graph) n ⊎ IsOrphan (graph_or rebuilt_graph) n) delta
rebuild_from_snapshot-IsStored_example =
    rebuild_from_snapshot-IsStored small_env toy_codec 0 young_snapshot delta rebuild_succeeds
