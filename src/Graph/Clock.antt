-- ===== src/Graph/Clock.antt =====
-- The clock of a graph of core/crdt/src/graph.rs: how far a received node can raise it, and how a
-- local node stands to the stored ones.
use nodalmerge.Base.{ℕ, ◌≤◌, ◌<◌, List, Option, arith, All}
use nodalmerge.Op.{Op}
use nodalmerge.Node.{SyncNode, new_signed, new_unsigned}
use nodalmerge.Graph.{
  StateGraph, Env, insert_node, inserted, check_lamport_ceiling, saturating_add, lamport_slack,
  u64_max,
}
use nodalmerge.Graph.Valid.{IsValid, All-map}
use nodalmerge.Graph.Local.{local_node}
use nodalmerge.Graph.Remote.{
  apply_remote_verified_no_projection, apply_remote_verified, check_node, verify_once,
  apply_remote_checked,
}

module _ {P : Type 0} (env : Env P) where
  open env use {crypto, project}

  -- Receiving a node never turns the clock back, and raises it by at most the slack of 2^20, or to
  -- the largest clock value.
  pub apply_remote_checked-clock :
      (now : Option ℕ) (node : SyncNode) (g : StateGraph P)
      → g.lamport ≤ u64_max
      → (g.lamport ≤ (apply_remote_checked env now node g).0.lamport)
        × ((apply_remote_checked env now node g).0.lamport ≤ saturating_add g.lamport lamport_slack)
  unfolding apply_remote_checked verify_once apply_remote_verified
      apply_remote_verified_no_projection insert_node inserted check_node check_lamport_ceiling
      saturating_add
  apply_remote_checked-clock now node g fits = ground arith

  local_node-lamport :
      (key : crypto.SigningKey) (wall_ms : ℕ) (ops : List Op) (g : StateGraph P)
      → g.lamport < u64_max
      → g.lamport < (local_node env key wall_ms ops g).transaction.lamport
  unfolding local_node new_signed new_unsigned
  local_node-lamport key wall_ms ops g room = ground arith

  -- The node of a local edit is later than every stored node, so that it wins over all of them,
  -- while the clock can still advance.
  pub local_node-latest :
      (key : crypto.SigningKey) (wall_ms : ℕ) (ops : List Op) (g : StateGraph P)
      → IsValid g
      → g.lamport < u64_max
      → All
          (λ (n : SyncNode).
            n.transaction.lamport < (local_node env key wall_ms ops g).transaction.lamport)
          g.nodes.entries
  local_node-latest key wall_ms ops g v room =
      let later = local_node-lamport key wall_ms ops g room in
      All-map g.nodes.entries (λ n h. ground arith) v.clock_bounds
