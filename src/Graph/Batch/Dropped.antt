-- ===== src/Graph/Batch/Dropped.antt =====
-- Which nodes a batch of core/crdt/src/graph.rs drops without a word.
use nodalmerge.Base.{ℕ, ◌≡◌, ap, true, ◌||◌, List, [], ◌∷◌, ◌++◌, map, Option, arith, contains}
use nodalmerge.Node.{SyncNode}
use nodalmerge.Frontier.{push_new}
use nodalmerge.Frontier.Tips.{contains-push_new}
use nodalmerge.Graph.{StateGraph, Env}
use nodalmerge.Graph.Batch.{BatchVerifier, precheck, prechecked, apply_remote_batch_checked}

module _ {P : Type 0} (env : Env P) where
  prechecked-dropped :
      (now : Option ℕ) (earlier : List SyncNode) (node : SyncNode) (later : List SyncNode)
      (seen : List ℕ) (g : StateGraph P)
      → (contains seen node.id || contains (map (λ (n : SyncNode). n.id) earlier) node.id) ≡ true
      → prechecked env now (earlier ++ node ∷ later) seen g
        ≡ prechecked env now (earlier ++ later) seen g
  unfolding prechecked contains push_new
  prechecked-dropped now [] node later seen g known =
      let there : contains seen node.id ≡ true = ground arith in rw there
  prechecked-dropped now (n ∷ earlier) node later seen g known = ap (precheck env now n seen g) (
      prechecked-dropped now earlier node later (push_new n.id seen) g
        (ground (arith, contains-push_new n.id seen node.id)))

  -- A node of a batch changes nothing, neither the graph nor the report, if a node with its id comes
  -- earlier in the batch, also if that one is rejected because its id is not its hash.
  pub apply_remote_batch_checked-dropped :
      (verifier : BatchVerifier) (now : Option ℕ) (earlier : List SyncNode) (node : SyncNode)
      (later : List SyncNode) (g : StateGraph P)
      → contains (map (λ (n : SyncNode). n.id) earlier) node.id ≡ true
      → apply_remote_batch_checked env verifier now (earlier ++ node ∷ later) g
        ≡ apply_remote_batch_checked env verifier now (earlier ++ later) g
  unfolding apply_remote_batch_checked contains
  apply_remote_batch_checked-dropped verifier now earlier node later g known =
      rw (prechecked-dropped now earlier node later [] g known)
