-- ===== src/Graph/Refusal.antt =====
-- What a refused node leaves of a graph of core/crdt/src/graph.rs, and a node that comes again.
use nodalmerge.Base.{ℕ, ◌≡◌, true, false, not, ◌&&◌, List, [], ◌∷◌, Option, arith, ◌==◌, contains}
use nodalmerge.Node.{SyncNode}
use nodalmerge.Storage.{contains_node, holds, insert_entry, put}
use nodalmerge.Frontier.Tips.{contains-push_new}
use nodalmerge.Graph.{StateGraph, Env, insert_node, inserted}
use nodalmerge.Graph.Remote.{
  apply_remote_verified_no_projection, apply_remote_verified, verify_once, apply_remote_checked,
}
use nodalmerge.Graph.Admission.{is_ok}

holds-insert_entry :
    (node : SyncNode) (entries : List SyncNode) → holds (insert_entry node entries) node.id ≡ true
unfolding holds insert_entry
holds-insert_entry node [] = ground arith
holds-insert_entry node (n ∷ entries) = ground (arith, holds-insert_entry node entries)

module _ {P : Type 0} (env : Env P) where
  open env use {crypto, project}

  -- A refused node changes nothing but the ids that were verified, to which it adds at most its own.
  pub apply_remote_checked-refused :
      (now : Option ℕ) (node : SyncNode) (g : StateGraph P)
      → is_ok (apply_remote_checked env now node g).1 ≡ false
      → ((apply_remote_checked env now node g).0
          ≡ record g { verified_ids = (apply_remote_checked env now node g).0.verified_ids })
        × ((x : ℕ)
            → (contains (apply_remote_checked env now node g).0.verified_ids x
                && not (node.id == x))
              ≡ (contains g.verified_ids x && not (node.id == x)))
  unfolding apply_remote_checked verify_once is_ok
  apply_remote_checked-refused now node g refused =
      (ground arith, (λ x. ground (arith, contains-push_new node.id g.verified_ids x)))

  accepted-known :
      (now : Option ℕ) (node : SyncNode) (g : StateGraph P)
      → is_ok (apply_remote_checked env now node g).1 ≡ true
      → (contains_node (apply_remote_checked env now node g).0.nodes node.id ≡ true)
        × (contains (apply_remote_checked env now node g).0.verified_ids node.id ≡ true)
  unfolding apply_remote_checked verify_once is_ok apply_remote_verified
      apply_remote_verified_no_projection insert_node inserted put contains_node
  accepted-known now node g accepted = ground (
    arith,
    holds-insert_entry node g.nodes.entries,
    contains-push_new node.id g.verified_ids node.id,
  )

  stored-refused :
      (now : Option ℕ) (node : SyncNode) (g : StateGraph P)
      → contains_node g.nodes node.id ≡ true
      → contains g.verified_ids node.id ≡ true
      → ((apply_remote_checked env now node g).0 ≡ g)
        × (is_ok (apply_remote_checked env now node g).1 ≡ false)
  unfolding apply_remote_checked verify_once is_ok apply_remote_verified
      apply_remote_verified_no_projection insert_node
  stored-refused now node g stored known = ground arith

  -- A node that was accepted and comes again is refused, and changes nothing at all.
  pub apply_remote_checked-apply_remote_checked :
      (now later : Option ℕ) (node : SyncNode) (g : StateGraph P)
      → is_ok (apply_remote_checked env now node g).1 ≡ true
      → ((apply_remote_checked env later node (apply_remote_checked env now node g).0).0
          ≡ (apply_remote_checked env now node g).0)
        × (is_ok (apply_remote_checked env later node (apply_remote_checked env now node g).0).1
            ≡ false)
  apply_remote_checked-apply_remote_checked now later node g accepted =
      let known = accepted-known now node g accepted in
      stored-refused later node (apply_remote_checked env now node g).0 known.0 known.1
