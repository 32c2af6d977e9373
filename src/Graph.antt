-- ===== src/Graph.antt =====
-- core/crdt/src/graph.rs: the graph of signed nodes and its operations. The text projections are a
-- part of the state that the model leaves open: `project` and `project_batch` stand for the calls
-- that update them, from the nodes of the graph and the new ones. Counters that only measure are
-- left out. A `HashSet` of ids is a list without repetitions, in an order that is not the program's.
pub mod Local
pub mod Remote
pub mod Valid
pub mod Keeps
pub mod Admission
pub mod Clock
pub mod Refusal
pub mod Batch
use nodalmerge.Base.{
  ℕ, ◌+◌, ◌*◌, ◌^◌, min, Bool, true, false, not, ◌&&◌, Bytes, List, [], ◌∷◌, ◌++◌, Option, none,
  some, ltb, leb, ◌==◌, if◌then◌else◌, contains, retain, any, bytes_eq,
}
use nodalmerge.Base.Prio.{Prio}
use nodalmerge.Op.{Op, MapOp, Transaction, op_key}
use nodalmerge.Error.{SyncError, Result, ok, err}
use nodalmerge.Node.{SyncNode, Crypto}
use nodalmerge.Policy.{Policy, open_policy, can_write}
use nodalmerge.Storage.{MemoryNodeStore, empty_store, put, contains_node}
use nodalmerge.Frontier.{Frontier, empty_frontier, advance, push_new}
use nodalmerge.Caches.{StateCaches, empty_caches}

abbrev pub u64_max : ℕ
u64_max = 18446744073709551615

-- `1 << 20`
abbrev pub lamport_slack : ℕ
lamport_slack = 1048576

-- `24 * 60 * 60 * 1000`
abbrev pub wall_skew_max_ms : ℕ
wall_skew_max_ms = 86400000

unfoldable pub saturating_add : ℕ → ℕ → ℕ
saturating_add a b = min (a + b) u64_max

unfoldable pub check_lamport_ceiling : ℕ → SyncNode → Result (Unit {0})
unfolding saturating_add
check_lamport_ceiling local_lamport node =
    let ceiling = saturating_add local_lamport lamport_slack in
    if ltb ceiling node.transaction.lamport
    then err (SyncError.lamport_ceiling node.id node.transaction.lamport ceiling)
    else ok tt

unfoldable pub check_wall_skew : ℕ → SyncNode → Result (Unit {0})
unfolding saturating_add
check_wall_skew now_ms node =
    if node.transaction.wall_ms == 0
    then ok tt
    else if ltb (saturating_add now_ms wall_skew_max_ms) node.transaction.wall_ms
    then err (SyncError.wall_clock_skew node.id node.transaction.wall_ms now_ms)
    else ok tt

-- `"\x00snap:hash"` of compaction.rs
abbrev pub snap_hash_key : Bytes
snap_hash_key = 0 ∷ b's' ∷ b'n' ∷ b'a' ∷ b'p' ∷ b':' ∷ b'h' ∷ b'a' ∷ b's' ∷ b'h' ∷ []

unfoldable pub sets_snapshot_hash : Op → Bool
sets_snapshot_hash (Op.map (MapOp.set key value)) = bytes_eq key snap_hash_key
sets_snapshot_hash (Op.map (MapOp.delete key)) = false
sets_snapshot_hash (Op.map (MapOp.set_blob key blob_hash)) = false
sets_snapshot_hash (Op.list l) = false
sets_snapshot_hash (Op.text t) = false

-- `is_snapshot_node` of compaction.rs
unfoldable pub is_snapshot_node : SyncNode → Bool
unfolding sets_snapshot_hash any
is_snapshot_node node = any sets_snapshot_hash node.transaction.ops

pub record StateGraph (P : Type 0) : Type 0 where
  pub nodes : MemoryNodeStore
  pub leaves : List ℕ
  pub lamport : ℕ
  pub policy : Policy
  pub frontier : Frontier
  pub local_node_ids : List ℕ
  pub verified_ids : List ℕ
  pub local_signing : Bool
  pub text_projections : P
  pub state_caches : StateCaches

-- `StateGraph::new()`
abbrev pub new_graph : {P : Type 0} → P → StateGraph P
new_graph projections = record {
  nodes = empty_store;
  leaves = [];
  lamport = 0;
  policy = open_policy;
  frontier = empty_frontier;
  local_node_ids = [];
  verified_ids = [];
  local_signing = true;
  text_projections = projections;
  state_caches = empty_caches;
}

-- what lies outside the model
pub record Env (P : Type 0) : Type 1 where
  pub crypto : Crypto
  pub project : List SyncNode → SyncNode → P → P
  pub project_batch : List SyncNode → List SyncNode → P → P

-- `leaves.remove(parent)`, for each parent in turn
unfoldable pub remove_leaves : List ℕ → List ℕ → List ℕ
remove_leaves [] leaves = leaves
remove_leaves (p ∷ parents) leaves = remove_leaves parents (retain (λ h. not (h == p)) leaves)

-- the first parent that is not stored
unfoldable pub missing_parent : MemoryNodeStore → List ℕ → Option ℕ
missing_parent store [] = none
missing_parent store (p ∷ parents) =
    if contains_node store p then missing_parent store parents else some p

-- the first key that the author may not write
unfoldable pub violated_key : Policy → ℕ → List Op → Option Bytes
violated_key policy author [] = none
violated_key policy author (op ∷ ops) = elim (op_key op) [
  | none ↦ violated_key policy author ops
  | some key ↦ if can_write policy key author then violated_key policy author ops else some key
]

module _ {P : Type 0} where
  unfoldable pub set_policy : Policy → StateGraph P → StateGraph P
  set_policy policy g = record g { policy = policy }

  -- what `insert_node` does once it has seen that the node is new
  unfoldable pub inserted : SyncNode → StateGraph P → StateGraph P
  unfolding remove_leaves
  inserted node g = record g {
    leaves = push_new node.id (remove_leaves node.transaction.parents g.leaves);
    frontier = advance node g.frontier;
    lamport =
        if ltb g.lamport node.transaction.lamport then node.transaction.lamport else g.lamport;
    nodes = put node g.nodes;
  }

  unfoldable pub insert_node : SyncNode → StateGraph P → Result (StateGraph P)
  unfolding inserted
  insert_node node g =
      if contains_node g.nodes node.id
      then err (SyncError.duplicate_node node.id)
      else ok (inserted node g)
