-- ===== src/Tests/Graphs.antt =====
-- The graph at concrete inputs, with a toy hash and a toy signature scheme.
use nodalmerge.Base.{
  ℕ, ◌≤◌, ◌<◌, ◌+◌, ◌≡◌, refl, true, false, not, ◌&&◌, List, [], ◌∷◌, none, some, arith, ◌==◌, All,
  contains, length, any, bytes_eq,
}
use nodalmerge.Op.{Op, MapOp, op_key, map_key}
use nodalmerge.Policy.{Policy, PolicyDefault, can_write, is_allow_all, rules_allow}
use nodalmerge.Storage.{contains_node, holds}
use nodalmerge.Node.{SyncNode, Crypto, transaction_hash, verify_signature, is_zero}
use nodalmerge.Graph.{
  StateGraph, Env, new_graph, saturating_add, lamport_slack, u64_max, snap_hash_key, set_policy,
  check_lamport_ceiling, missing_parent, is_snapshot_node, sets_snapshot_hash, violated_key,
  insert_node, inserted,
}
use nodalmerge.Graph.Valid.{IsValid}
use nodalmerge.Graph.Local.{apply_local, local_node}
use nodalmerge.Graph.Remote.{
  apply_remote_checked, check_node, check_hash, verify_once, check_skew, apply_remote_verified,
  apply_remote_verified_no_projection, policy_violation,
}
use nodalmerge.Graph.Keeps.{
  new_graph-IsValid, apply_remote_checked-IsValid, apply_local-IsValid, HasHashes,
  apply_remote_checked-HasHashes,
}
use nodalmerge.Graph.Clock.{apply_remote_checked-clock, local_node-latest}
use nodalmerge.Graph.Admission.{
  is_ok, admissible, apply_remote_checked-admissible, snapshot-any_policy,
}
use nodalmerge.Graph.Refusal.{
  apply_remote_checked-refused, apply_remote_checked-apply_remote_checked,
}

-- the clock is hashed alone, and a signature is the sum of the id and the key
abbrev pub toy_crypto : Crypto
toy_crypto = record {
  SigningKey = ℕ;
  to_allocvec = λ tx. tx.lamport ∷ tx.author ∷ [];
  blake3 = λ bytes. elim bytes [ [] ↦ 0 | a ∷ rest ↦ a + 100 ];
  verifying_key = λ key. key;
  sign_id = λ key id. id + key;
  verify_id = λ author id signature. (id + author) == signature;
}

abbrev pub toy_env : Env ℕ
toy_env = record {
  crypto = toy_crypto;
  project = λ nodes node n. n + 1;
  project_batch = λ nodes added n. n + length added;
}

abbrev pub empty_graph : StateGraph ℕ
empty_graph = new_graph 0

abbrev pub edit : List Op
edit = Op.map (MapOp.set (b't' ∷ []) (b'x' ∷ [])) ∷ []

abbrev pub received : SyncNode
received = record {
  id = 103;
  transaction = record { author = 7; lamport = 3; wall_ms = 0; ops = edit; parents = [] };
  signature = 110;
}

-- the graph after the node is received
abbrev pub graph : StateGraph ℕ
graph = (apply_remote_checked toy_env none received empty_graph).0

graph-IsValid : IsValid graph
graph-IsValid =
    apply_remote_checked-IsValid toy_env none received empty_graph (new_graph-IsValid {P = ℕ} 0)

apply_remote_checked-IsValid_example :
    IsValid (apply_remote_checked toy_env none received empty_graph).0
apply_remote_checked-IsValid_example =
    apply_remote_checked-IsValid toy_env none received empty_graph (new_graph-IsValid {P = ℕ} 0)

apply_remote_checked-admissible_example :
    is_ok (apply_remote_checked toy_env none received empty_graph).1
    ≡ admissible toy_env none received empty_graph
apply_remote_checked-admissible_example =
    apply_remote_checked-admissible toy_env none received empty_graph

received_accepted : is_ok (apply_remote_checked toy_env none received empty_graph).1 ≡ true
unfolding apply_remote_checked check_node check_hash transaction_hash check_lamport_ceiling
    saturating_add verify_once check_skew contains verify_signature is_zero apply_remote_verified
    apply_remote_verified_no_projection missing_parent policy_violation is_snapshot_node
    sets_snapshot_hash any bytes_eq violated_key op_key map_key can_write is_allow_all rules_allow
    insert_node contains_node holds inserted is_ok
received_accepted = refl

-- the same node under another id
abbrev altered : SyncNode
altered = record received { id = 104 }

altered_refused : is_ok (apply_remote_checked toy_env none altered graph).1 ≡ false
unfolding apply_remote_checked check_node check_hash transaction_hash is_ok
altered_refused = refl

apply_remote_checked-refused_example :
    ((apply_remote_checked toy_env none altered graph).0 ≡ record graph {
      verified_ids = (apply_remote_checked toy_env none altered graph).0.verified_ids;
    })
    × ((x : ℕ)
        → (contains (apply_remote_checked toy_env none altered graph).0.verified_ids x
            && not (104 == x))
          ≡ (contains graph.verified_ids x && not (104 == x)))
apply_remote_checked-refused_example =
    apply_remote_checked-refused toy_env none altered graph altered_refused

apply_remote_checked-apply_remote_checked_example :
    ((apply_remote_checked toy_env (some 5) received graph).0 ≡ graph)
    × (is_ok (apply_remote_checked toy_env (some 5) received graph).1 ≡ false)
apply_remote_checked-apply_remote_checked_example =
    apply_remote_checked-apply_remote_checked toy_env none (some 5) received empty_graph
      received_accepted

apply_remote_checked-HasHashes_example :
    HasHashes toy_env (apply_remote_checked toy_env none received empty_graph).0
apply_remote_checked-HasHashes_example =
    apply_remote_checked-HasHashes toy_env none received empty_graph tt

apply_remote_checked-clock_example :
    (empty_graph.lamport ≤ graph.lamport)
    × (graph.lamport ≤ saturating_add empty_graph.lamport lamport_slack)
apply_remote_checked-clock_example =
    apply_remote_checked-clock toy_env none received empty_graph (omega arith)

room_left : graph.lamport < u64_max
unfolding apply_remote_checked check_node check_hash transaction_hash check_lamport_ceiling
    saturating_add verify_once check_skew contains verify_signature is_zero apply_remote_verified
    apply_remote_verified_no_projection missing_parent policy_violation is_snapshot_node
    sets_snapshot_hash any bytes_eq violated_key op_key map_key can_write is_allow_all rules_allow
    insert_node contains_node holds inserted is_ok
room_left = omega arith

apply_local-IsValid_example : IsValid (apply_local toy_env 9 50 edit graph).0
apply_local-IsValid_example = apply_local-IsValid toy_env 9 50 edit graph graph-IsValid room_left

local_node-latest_example :
    All
      (λ (n : SyncNode).
        n.transaction.lamport < (local_node toy_env 9 50 edit graph).transaction.lamport)
      graph.nodes.entries
local_node-latest_example = local_node-latest toy_env 9 50 edit graph graph-IsValid room_left

-- a node that nobody may write, beside the marker of a snapshot
abbrev marked : SyncNode
marked = record received {
  transaction = record {
    author = 7;
    lamport = 3;
    wall_ms = 0;
    ops = Op.map (MapOp.set (b't' ∷ []) []) ∷ Op.map (MapOp.set snap_hash_key []) ∷ [];
    parents = [];
  };
}

abbrev closed : Policy
closed = record { rules = []; default = PolicyDefault.deny_all }

marked_snapshot : is_snapshot_node marked ≡ true
unfolding is_snapshot_node sets_snapshot_hash any bytes_eq
marked_snapshot = refl

snapshot-any_policy_example :
    is_ok (apply_remote_checked toy_env none marked (set_policy closed empty_graph)).1
    ≡ is_ok (apply_remote_checked toy_env none marked empty_graph).1
snapshot-any_policy_example =
    snapshot-any_policy toy_env none marked closed empty_graph marked_snapshot
