-- ===== src/Graph/Batch/Outcome.antt =====
-- What `apply_remote_batch_checked` of core/crdt/src/graph.rs does to the graph, and what it reports.
use nodalmerge.Base.{
  ℕ, suc, ◌≡◌, ◌⊎◌, refl, sym, ap, subst, Bool, true, false, ◌||◌, List, [], ◌∷◌, ◌++◌, map, Option,
  none, arith, inl, inr, ◌==◌, contains, All, Bool-cases,
}
use nodalmerge.Error.{SyncError, Result, ok, err}
use nodalmerge.Node.{SyncNode}
use nodalmerge.Storage.{contains_node}
use nodalmerge.Frontier.{push_new}
use nodalmerge.Frontier.Tips.{contains-push_new}
use nodalmerge.Graph.{StateGraph, Env, insert_node, inserted, missing_parent}
use nodalmerge.Graph.Keeps.{core, CoreIsValid}
use nodalmerge.Graph.Remote.{check_node, apply_remote_verified_no_projection}
use nodalmerge.Graph.Valid.{IsValid, All-map, inserted-IsValid, missing_parent-Stored}
use nodalmerge.Graph.Batch.{
  BatchVerifier, enumerate, prechecked, flagged_step, apply_flagged, verify_nodes_batched,
  apply_remote_batch_checked,
}
use nodalmerge.Graph.Batch.Signatures.{IsSound, check}
use nodalmerge.Graph.Batch.Positions.{verify_nodes_batched_lem}
use nodalmerge.Graph.Batch.Sequence.{
  projected, apply_remote_each, Ready, HasDistinctIds, apply_flagged-each,
}

Result-cases : (r : Result (Unit {0})) → (r ≡ ok tt) ⊎ ((e : SyncError) × (r ≡ err e))
Result-cases (ok tt) = inl refl
Result-cases (err e) = inr (e, refl)

-- no id comes twice
abbrev IsDistinctList : List SyncNode → Type 0
IsDistinctList [] = Unit
IsDistinctList (n ∷ nodes) =
    All (λ (m : SyncNode). (n.id == m.id) ≡ false) nodes × IsDistinctList nodes

module _ {P : Type 0} (env : Env P) where
  open env use {crypto}

  -- the nodes that the first checks leave: not seen before, of different ids, and without an error
  record IsLeft (now : Option ℕ) (seen : List ℕ) (g : StateGraph P) (nodes : List SyncNode)
      : Type 0 where
    unseen : All (λ (n : SyncNode). contains seen n.id ≡ false) nodes
    passed : All (λ (n : SyncNode). check_node env now n g ≡ ok tt) nodes
    distinct : IsDistinctList nodes

  IsLeft-unseen :
      (now : Option ℕ) (id : ℕ) (seen : List ℕ) (g : StateGraph P) (nodes : List SyncNode)
      → IsLeft now (push_new id seen) g nodes
      → IsLeft now seen g nodes
  IsLeft-unseen now id seen g nodes l = record {
    unseen = All-map nodes (λ n h. ground (arith, contains-push_new id seen n.id)) l.unseen;
    passed = l.passed;
    distinct = l.distinct;
  }

  IsLeft-keep :
      (now : Option ℕ) (node : SyncNode) (seen : List ℕ) (g : StateGraph P) (nodes : List SyncNode)
      → contains seen node.id ≡ false
      → check_node env now node g ≡ ok tt
      → IsLeft now (push_new node.id seen) g nodes
      → IsLeft now seen g (node ∷ nodes)
  IsLeft-keep now node seen g nodes new passes l = record {
    unseen = (new, (IsLeft-unseen now node.id seen g nodes l).unseen);
    passed = (passes, l.passed);
    distinct = (
      All-map nodes (λ m h. ground (arith, contains-push_new node.id seen m.id)) l.unseen,
      l.distinct,
    );
  }

  prechecked-IsLeft :
      (now : Option ℕ) (nodes : List SyncNode) (seen : List ℕ) (g : StateGraph P)
      → IsLeft now seen g (prechecked env now nodes seen g).0
  unfolding prechecked
  prechecked-IsLeft now [] seen g = record { unseen = tt; passed = tt; distinct = tt }
  prechecked-IsLeft now (n ∷ nodes) seen g =
      let rest : IsLeft now (push_new n.id seen) g
          (prechecked env now nodes (push_new n.id seen) g).0 =
        prechecked-IsLeft now nodes (push_new n.id seen) g in
      let kept = IsLeft-unseen now n.id seen g _ rest in
      elim (Bool-cases (contains seen n.id)) [
        | inl known ↦ rw known kept
        | inr new ↦ elim (Bool-cases (contains_node g.nodes n.id)) [
          | inl stored ↦ rw (new, stored) kept
          | inr fresh ↦ elim (Result-cases (check_node env now n g)) [
            | inl passes ↦ rw (new, fresh, passes) (IsLeft-keep now n seen g _ new passes rest)
            | inr (e, fails) ↦ rw (new, fresh, fails) kept
          ]
        ]
      ]

  enumerate-Ready :
      (now : Option ℕ) (verify_ok : ℕ → Bool) (g : StateGraph P) (i : ℕ) (nodes : List SyncNode)
      → All (λ (n : SyncNode). check_node env now n g ≡ ok tt) nodes
      → All
          (λ (p : ℕ × SyncNode).
            verify_ok p.0 ≡ (contains g.verified_ids p.1.id || check crypto p.1))
          (enumerate i nodes)
      → All (Ready env now verify_ok g) (enumerate i nodes)
  unfolding enumerate
  enumerate-Ready now verify_ok g i [] h k = tt
  enumerate-Ready now verify_ok g i (n ∷ nodes) h k =
      ((h.0, k.0), enumerate-Ready now verify_ok g (suc i) nodes h.1 k.1)

enumerate-All :
    (Q : SyncNode → Type 0) (i : ℕ) (nodes : List SyncNode)
    → All Q nodes
    → All (λ (p : ℕ × SyncNode). Q p.1) (enumerate i nodes)
unfolding enumerate
enumerate-All Q i [] h = tt
enumerate-All Q i (n ∷ nodes) h = (h.0, enumerate-All Q (suc i) nodes h.1)

module _ {P : Type 0} (env : Env P) where
  enumerate-distinct :
      (i : ℕ) (nodes : List SyncNode)
      → IsDistinctList nodes
      → HasDistinctIds env (enumerate i nodes)
  unfolding enumerate
  enumerate-distinct i [] h = tt
  enumerate-distinct i (n ∷ nodes) h =
      (enumerate-All _ (suc i) nodes h.0, enumerate-distinct (suc i) nodes h.1)

  flagged-outcome :
      (node : SyncNode) (flag : Bool) (g : StateGraph P)
      → (core (flagged_step env node flag g).0 ≡ core g)
        ⊎ ((missing_parent g.nodes node.transaction.parents ≡ none)
            × (contains_node g.nodes node.id ≡ false)
            × (core (flagged_step env node flag g).0 ≡ core (inserted node g)))
  unfolding flagged_step apply_remote_verified_no_projection insert_node inserted
  flagged-outcome node true g = ground arith
  flagged-outcome node false g = inl refl

  -- each node in its turn keeps the graph valid
  flagged_step-IsValid :
      (node : SyncNode) (flag : Bool) (g : StateGraph P)
      → IsValid g
      → IsValid (flagged_step env node flag g).0
  unfolding contains_node
  flagged_step-IsValid node flag g v = elim (flagged-outcome node flag g) [
    | inl same ↦ subst CoreIsValid (sym same) v
    | inr (parents, new, done) ↦ subst CoreIsValid (sym done) (
        inserted-IsValid node g v (missing_parent-Stored g.nodes node.transaction.parents parents)
          new)
  ]

  apply_flagged-IsValid :
      (verify_ok : ℕ → Bool) (i : ℕ) (nodes : List SyncNode) (g : StateGraph P)
      → IsValid g
      → IsValid (apply_flagged env verify_ok i nodes g).0
  unfolding apply_flagged
  apply_flagged-IsValid verify_ok i [] g v = v
  apply_flagged-IsValid verify_ok i (n ∷ nodes) g v =
      apply_flagged-IsValid verify_ok (suc i) nodes (flagged_step env n (verify_ok i) g).0
        (flagged_step-IsValid n (verify_ok i) g v)

  -- Whatever the batch, and whatever the batch verifier answers, the graph stays valid.
  pub apply_remote_batch_checked-IsValid :
      (verifier : BatchVerifier) (now : Option ℕ) (nodes : List SyncNode) (g : StateGraph P)
      → IsValid g
      → IsValid (apply_remote_batch_checked env verifier now nodes g).0
  unfolding apply_remote_batch_checked
  apply_remote_batch_checked-IsValid verifier now nodes g v =
      let to_verify : List SyncNode = (prechecked env now nodes [] g).0 in
      apply_flagged-IsValid (verify_nodes_batched env verifier g.verified_ids to_verify) 0 to_verify
        g v

module _ {P : Type 0} (env : Env P) (verifier : BatchVerifier)
    (sound : IsSound env.crypto verifier) where
  -- A batch leaves the graph that its nodes leave when they are received one by one, up to the text
  -- projections, once those are left out whose id comes earlier in the batch, is stored, or fails
  -- the checks before the signature; it accepts the same nodes, and rejects the same for the same
  -- reasons, after those that failed the first checks; where the batch verifier only passes what
  -- verifies.
  pub apply_remote_batch_checked-each :
      (now : Option ℕ) (nodes : List SyncNode) (g : StateGraph P)
      → (projected g.text_projections (apply_remote_batch_checked env verifier now nodes g).0
          ≡ projected g.text_projections
              (apply_remote_each env now (prechecked env now nodes [] g).0 g).0)
        × ((apply_remote_batch_checked env verifier now nodes g).1 ≡ record {
          accepted =
              map
                (λ (n : SyncNode). n.id)
                (apply_remote_each env now (prechecked env now nodes [] g).0 g).1.0;
          rejected =
              (prechecked env now nodes [] g).1
              ++ (apply_remote_each env now (prechecked env now nodes [] g).0 g).1.1;
        })
  unfolding apply_remote_batch_checked
  apply_remote_batch_checked-each now nodes g =
      let pre = prechecked env now nodes [] g in
      let left = prechecked-IsLeft env now nodes [] g in
      let flag : ℕ → Bool = verify_nodes_batched env verifier g.verified_ids pre.0 in
      let same =
        apply_flagged-each env now flag 0 pre.0 g.text_projections g
          (enumerate-Ready env now flag g 0 pre.0 left.passed
            (verify_nodes_batched_lem env verifier sound g.verified_ids pre.0))
          (enumerate-distinct env 0 pre.0 left.distinct) in
      (
        sym same.0,
        ap
            (λ (r : List SyncNode × List (ℕ × SyncError)). record {
              accepted = map (λ (n : SyncNode). n.id) r.0;
              rejected = pre.1 ++ r.1;
            })
            (sym same.1),
      )
