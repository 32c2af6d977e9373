-- ===== src/Graph/Local.antt =====
-- `apply_local` of core/crdt/src/graph.rs.
use nodalmerge.Base.{ℕ, ◌+◌, ◌-◌, ◌%◌, ◌^◌, List, [], ◌∷◌, if◌then◌else◌, length, false}
use nodalmerge.Op.{Op, TextOp, Transaction}
use nodalmerge.Error.{Result, ok, err}
use nodalmerge.Node.{SyncNode, new_signed, new_unsigned}
use nodalmerge.Frontier.{push_new}
use nodalmerge.Caches.{update_state_caches}
use nodalmerge.Graph.{StateGraph, Env, insert_node, saturating_add}

-- the ids that a range insert takes beyond its first; `-` stops at 0 as `saturating_sub` does
unfoldable pub extra_ids : Op → ℕ
extra_ids (Op.text (TextOp.insert_range key anchor chars)) = length chars - 1
extra_ids (Op.text (TextOp.insert key left ch)) = 0
extra_ids (Op.text (TextOp.delete key target)) = 0
extra_ids (Op.text (TextOp.delete_range key anchor len_chars)) = 0
extra_ids (Op.map m) = 0
extra_ids (Op.list l) = 0

unfoldable pub extra_insert_ids : List Op → ℕ
unfolding extra_ids
extra_insert_ids [] = 0
extra_insert_ids (op ∷ ops) = extra_ids op + extra_insert_ids ops

module _ {P : Type 0} (env : Env P) where
  open env use {crypto, project}

  -- the node that `apply_local` builds; the clock wraps round where an addition overflows
  unfoldable pub local_node : crypto.SigningKey → ℕ → List Op → StateGraph P → SyncNode
  local_node key wall_ms ops g =
      let tx : Transaction = record {
        author = crypto.verifying_key key;
        lamport = (g.lamport + 1) % 2 ^ 64;
        wall_ms = wall_ms;
        ops = ops;
        parents = g.leaves;
      } in
      if g.local_signing then new_signed crypto tx key else new_unsigned crypto tx

  -- the clock after the ids of the transaction are taken
  unfoldable pub local_lamport : List Op → StateGraph P → ℕ
  unfolding extra_insert_ids
  local_lamport ops g = saturating_add ((g.lamport + 1) % 2 ^ 64) (extra_insert_ids ops)

  -- what follows a successful insertion
  unfoldable pub finish_local : SyncNode → StateGraph P → StateGraph P
  finish_local node g = record g {
    state_caches = update_state_caches node false g.state_caches;
    text_projections = project g.nodes.entries node g.text_projections;
    local_node_ids = push_new node.id g.local_node_ids;
    verified_ids = push_new node.id g.verified_ids;
  }

  -- the clock stays advanced when the insertion fails
  unfoldable pub apply_local :
      crypto.SigningKey → ℕ → List Op → StateGraph P → StateGraph P × Result ℕ
  unfolding local_node local_lamport finish_local
  apply_local key wall_ms ops g =
      let node = local_node key wall_ms ops g in
      let g' = record g { lamport = local_lamport ops g } in
      elim (insert_node node g') [
        | err e ↦ (g', err e)
        | ok g'' ↦ (finish_local node g'', ok node.id)
      ]
