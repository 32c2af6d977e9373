-- ===== src/Graph/Admission.antt =====
-- When a graph of core/crdt/src/graph.rs accepts a received node, and what a refusal leaves.
use nodalmerge.Base.{
  ℕ, ◌≡◌, refl, sym, ◌∙◌, Bool, true, false, not, ◌&&◌, ◌||◌, List, [], ◌∷◌, Option, none, some,
  arith, leb, ◌==◌, contains,
}
use nodalmerge.Op.{Op, op_key}
use nodalmerge.Policy.{Policy, can_write}
use nodalmerge.Error.{Result, ok, err}
use nodalmerge.Node.{SyncNode, transaction_hash, verify_signature, is_zero}
use nodalmerge.Storage.{MemoryNodeStore, contains_node}
use nodalmerge.Graph.{
  StateGraph, Env, insert_node, check_lamport_ceiling, check_wall_skew, saturating_add,
  lamport_slack, wall_skew_max_ms, missing_parent, violated_key, is_snapshot_node, set_policy,
}
use nodalmerge.Graph.Remote.{
  apply_remote_verified_no_projection, apply_remote_verified, check_node, check_hash, check_skew,
  verify_once, policy_violation, apply_remote_checked,
}

-- the conditions, each as a test of its own
unfoldable pub all_stored : MemoryNodeStore → List ℕ → Bool
all_stored store [] = true
all_stored store (p ∷ parents) = contains_node store p && all_stored store parents

unfoldable pub op_allowed : Policy → ℕ → Op → Bool
op_allowed policy author op = elim (op_key op) [
  | none ↦ true
  | some key ↦ can_write policy key author
]

unfoldable pub all_allowed : Policy → ℕ → List Op → Bool
unfolding op_allowed
all_allowed policy author [] = true
all_allowed policy author (op ∷ ops) = op_allowed policy author op && all_allowed policy author ops

unfoldable pub in_time : Option ℕ → ℕ → Bool
in_time none wall_ms = true
in_time (some now) wall_ms = wall_ms == 0 || leb wall_ms (saturating_add now wall_skew_max_ms)

unfoldable pub is_ok {ℓ} : {A : Type ℓ} → Result A → Bool
is_ok (ok a) = true
is_ok (err e) = false

unfoldable pub is_none {ℓ} : {A : Type ℓ} → Option A → Bool
is_none none = true
is_none (some a) = false

missing_parent-is_none :
    (store : MemoryNodeStore) (parents : List ℕ)
    → is_none (missing_parent store parents) ≡ all_stored store parents
unfolding missing_parent all_stored is_none
missing_parent-is_none store [] = refl
missing_parent-is_none store (p ∷ parents) = ground (arith, missing_parent-is_none store parents)

violated_key-is_none :
    (policy : Policy) (author : ℕ) (ops : List Op)
    → is_none (violated_key policy author ops) ≡ all_allowed policy author ops
unfolding violated_key all_allowed op_allowed is_none
violated_key-is_none policy author [] = refl
violated_key-is_none policy author (op ∷ ops) =
    ground (arith, violated_key-is_none policy author ops)

module _ {P : Type 0} (env : Env P) where
  open env use {crypto, project}

  -- the conditions under which a received node is accepted
  unfoldable pub admissible : Option ℕ → SyncNode → StateGraph P → Bool
  unfolding in_time all_stored all_allowed
  admissible now node g =
      (transaction_hash crypto node.transaction == node.id)
      && leb node.transaction.lamport (saturating_add g.lamport lamport_slack)
      && in_time now node.transaction.wall_ms
      && (contains g.verified_ids node.id
          || is_zero node.signature
          || crypto.verify_id node.transaction.author node.id node.signature)
      && all_stored g.nodes node.transaction.parents
      && (is_snapshot_node node
          || all_allowed g.policy node.transaction.author node.transaction.ops)
      && not (contains_node g.nodes node.id)

  -- A received node is accepted exactly if its id is the hash of its transaction, its clock is
  -- within the slack of the graph's, its wall clock is unset or not too far ahead of a given time,
  -- its id was verified before or its signature is zero or verifies, its parents are stored, the
  -- policy lets its author write every key or it is a snapshot, and its id is not stored.
  pub apply_remote_checked-admissible :
      (now : Option ℕ) (node : SyncNode) (g : StateGraph P)
      → is_ok (apply_remote_checked env now node g).1 ≡ admissible now node g
  unfolding apply_remote_checked verify_once apply_remote_verified
      apply_remote_verified_no_projection insert_node check_node check_lamport_ceiling check_hash
      check_skew check_wall_skew policy_violation verify_signature is_ok is_none admissible in_time
  apply_remote_checked-admissible now node g = ground (
    arith,
    missing_parent-is_none g.nodes node.transaction.parents,
    violated_key-is_none g.policy node.transaction.author node.transaction.ops,
  )

  -- Whether a node that sets the snapshot hash key is accepted does not depend on the policy,
  -- whatever else the node writes.
  pub snapshot-any_policy :
      (now : Option ℕ) (node : SyncNode) (policy : Policy) (g : StateGraph P)
      → is_snapshot_node node ≡ true
      → is_ok (apply_remote_checked env now node (set_policy policy g)).1
        ≡ is_ok (apply_remote_checked env now node g).1
  unfolding admissible set_policy
  snapshot-any_policy now node policy g snapshot =
      apply_remote_checked-admissible now node (set_policy policy g)
      ∙ ground (arith, snapshot)
      ∙ sym (apply_remote_checked-admissible now node g)
