-- ===== src/Graph/Remote.antt =====
-- `apply_remote` and `apply_remote_checked` of core/crdt/src/graph.rs.
use nodalmerge.Base.{ℕ, true, Option, none, some, ◌==◌, if◌then◌else◌, contains, Bytes}
use nodalmerge.Error.{SyncError, Result, ok, err}
use nodalmerge.Node.{SyncNode, transaction_hash, verify_signature}
use nodalmerge.Frontier.{push_new}
use nodalmerge.Caches.{update_state_caches}
use nodalmerge.Graph.{
  StateGraph, Env, insert_node, check_lamport_ceiling, check_wall_skew, is_snapshot_node,
  missing_parent, violated_key,
}

module _ {P : Type 0} (env : Env P) where
  open env use {crypto, project}

  -- the key that the room's policy forbids, if the node is no snapshot
  unfoldable pub policy_violation : SyncNode → StateGraph P → Option Bytes
  policy_violation node g =
      if is_snapshot_node node
      then none
      else violated_key g.policy node.transaction.author node.transaction.ops

  unfoldable pub apply_remote_verified_no_projection :
      SyncNode → StateGraph P → Result (StateGraph P)
  unfolding policy_violation
  apply_remote_verified_no_projection node g =
      elim (missing_parent g.nodes node.transaction.parents) [
        | some p ↦ err (SyncError.missing_parent p)
        | none ↦ elim (policy_violation node g) [
          | some key ↦ err (SyncError.policy_violation node.transaction.author key)
          | none ↦ elim (insert_node node g) [
            | err e ↦ err e
            | ok g' ↦
                ok (record g' { state_caches = update_state_caches node true g'.state_caches })
          ]
        ]
      ]

  unfoldable pub apply_remote_verified : SyncNode → StateGraph P → Result (StateGraph P)
  unfolding apply_remote_verified_no_projection
  apply_remote_verified node g = elim (apply_remote_verified_no_projection node g) [
    | err e ↦ err e
    | ok g' ↦
        ok (record g' { text_projections = project g'.nodes.entries node g'.text_projections })
  ]

  unfoldable pub check_hash : SyncNode → Result (Unit {0})
  check_hash node =
      if transaction_hash crypto node.transaction == node.id
      then ok tt
      else err (SyncError.hash_mismatch (transaction_hash crypto node.transaction) node.id)

  unfoldable pub check_skew : Option ℕ → SyncNode → Result (Unit {0})
  check_skew none node = ok tt
  check_skew (some now) node = check_wall_skew now node

  -- the checks before the signature, in their order
  unfoldable pub check_node : Option ℕ → SyncNode → StateGraph P → Result (Unit {0})
  unfolding check_hash check_skew
  check_node now node g = elim (check_hash node) [
    | err e ↦ err e
    | ok _ ↦ elim (check_lamport_ceiling g.lamport node) [
      | err e ↦ err e
      | ok _ ↦ check_skew now node
    ]
  ]

  -- the signature check, which a verified id skips and which adds to the verified ids
  unfoldable pub verify_once : SyncNode → StateGraph P → Result (StateGraph P)
  verify_once node g =
      if contains g.verified_ids node.id then ok g else elim (verify_signature crypto node) [
        | err e ↦ err e
        | ok _ ↦ ok (record g { verified_ids = push_new node.id g.verified_ids })
      ]

  -- a node that fails after its signature check stays in the verified ids
  unfoldable pub apply_remote_checked :
      Option ℕ → SyncNode → StateGraph P → StateGraph P × Result (Unit {0})
  unfolding check_node verify_once apply_remote_verified
  apply_remote_checked now node g = elim (check_node now node g) [
    | err e ↦ (g, err e)
    | ok _ ↦ elim (verify_once node g) [
      | err e ↦ (g, err e)
      | ok g' ↦ elim (apply_remote_verified node g') [ err e ↦ (g', err e) | ok g'' ↦ (g'', ok tt) ]
    ]
  ]

  unfoldable pub apply_remote : SyncNode → StateGraph P → StateGraph P × Result (Unit {0})
  unfolding apply_remote_checked
  apply_remote node g = apply_remote_checked none node g
