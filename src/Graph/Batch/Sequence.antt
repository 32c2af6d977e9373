-- ===== src/Graph/Batch/Sequence.antt =====
-- The batch of core/crdt/src/graph.rs against `apply_remote_checked`, one node after the other.
use nodalmerge.Base.{
  ℕ, suc, ◌≡◌, refl, sym, ap, ◌∙◌, Bool, true, false, ◌||◌, List, [], ◌∷◌, Option, arith, ◌==◌,
  contains, All,
}
use mathlib.Core.Path.{ap₂}
use nodalmerge.Error.{SyncError, ok}
use nodalmerge.Node.{SyncNode, verify_signature}
use nodalmerge.Frontier.{push_new}
use nodalmerge.Frontier.Tips.{contains-push_new}
use nodalmerge.Graph.{StateGraph, Env, insert_node, inserted, check_lamport_ceiling, saturating_add}
use nodalmerge.Graph.Remote.{
  check_node, verify_once, apply_remote_verified_no_projection, apply_remote_verified,
  apply_remote_checked,
}
use nodalmerge.Graph.Batch.{enumerate, is_verified, flagged_step, file_outcome, apply_flagged}
use nodalmerge.Graph.Batch.Signatures.{check}

-- a graph with other text projections
abbrev pub projected : {P : Type 0} → P → StateGraph P → StateGraph P
projected t g = record g { text_projections = t }

module _ {P : Type 0} (env : Env P) where
  open env use {crypto}

  -- nodes received one after the other, those that are accepted and those that are rejected
  unfoldable pub apply_remote_each :
      Option ℕ
      → List SyncNode
      → StateGraph P
      → StateGraph P × (List SyncNode × List (ℕ × SyncError))
  apply_remote_each now [] g = (g, ([], []))
  apply_remote_each now (node ∷ nodes) g =
      let step = apply_remote_checked env now node g in
      let rest = apply_remote_each now nodes step.0 in (rest.0, file_outcome node step.1 rest.1)

  flagged_step-projected :
      (node : SyncNode) (flag : Bool) (t : P) (g : StateGraph P)
      → ((flagged_step env node flag (projected t g)).0
          ≡ projected t (flagged_step env node flag g).0)
        × ((flagged_step env node flag (projected t g)).1 ≡ (flagged_step env node flag g).1)
  unfolding flagged_step apply_remote_verified_no_projection insert_node inserted
  flagged_step-projected node true t g = (ground arith, ground arith)
  flagged_step-projected node false t g = (refl, refl)

  -- a node that passed the first checks is received as its flag says
  checked-flagged :
      (now : Option ℕ) (node : SyncNode) (t : P) (g : StateGraph P)
      → check_node env now node g ≡ ok tt
      → (projected t (apply_remote_checked env now node g).0
          ≡ projected t
              (flagged_step env node (contains g.verified_ids node.id || check crypto node) g).0)
        × ((apply_remote_checked env now node g).1
            ≡ (flagged_step env node (contains g.verified_ids node.id || check crypto node) g).1)
  unfolding apply_remote_checked verify_once apply_remote_verified flagged_step push_new check
      verify_signature is_verified
  checked-flagged now node t g passed = (ground arith, ground arith)

  -- a node that passed the first checks, with the flag of its position
  abbrev pub Ready : Option ℕ → (ℕ → Bool) → StateGraph P → ℕ × SyncNode → Type 0
  Ready now verify_ok g p =
      (check_node env now p.1 g ≡ ok tt)
      × (verify_ok p.0 ≡ (contains g.verified_ids p.1.id || check crypto p.1))

  -- no id comes twice
  abbrev pub HasDistinctIds : List (ℕ × SyncNode) → Type 0
  HasDistinctIds [] = Unit
  HasDistinctIds (p ∷ l) =
      All (λ (q : ℕ × SyncNode). (p.1.id == q.1.id) ≡ false) l × HasDistinctIds l

  -- receiving a node leaves the others ready
  step-Ready :
      (now : Option ℕ) (verify_ok : ℕ → Bool) (node : SyncNode) (g : StateGraph P)
      (q : ℕ × SyncNode)
      → (node.id == q.1.id) ≡ false
      → Ready now verify_ok g q
      → Ready now verify_ok (apply_remote_checked env now node g).0 q
  unfolding apply_remote_checked verify_once apply_remote_verified
      apply_remote_verified_no_projection insert_node inserted check_node check_lamport_ceiling
      saturating_add
  step-Ready now verify_ok node g q other r =
      (ground arith, ground (arith, contains-push_new node.id g.verified_ids q.1.id))

  step-All-Ready :
      (now : Option ℕ) (verify_ok : ℕ → Bool) (node : SyncNode) (g : StateGraph P)
      (l : List (ℕ × SyncNode))
      → All (λ (q : ℕ × SyncNode). (node.id == q.1.id) ≡ false) l
      → All (Ready now verify_ok g) l
      → All (Ready now verify_ok (apply_remote_checked env now node g).0) l
  step-All-Ready now verify_ok node g [] other r = tt
  step-All-Ready now verify_ok node g (q ∷ l) other r = (
    step-Ready now verify_ok node g q other.0 r.0,
    step-All-Ready now verify_ok node g l other.1 r.1,
  )

  -- the two loops run side by side, from graphs that differ in their text projections
  pub apply_flagged-each :
      (now : Option ℕ) (verify_ok : ℕ → Bool) (i : ℕ) (nodes : List SyncNode) (t : P)
      (g : StateGraph P)
      → All (Ready now verify_ok g) (enumerate i nodes)
      → HasDistinctIds (enumerate i nodes)
      → (projected t (apply_remote_each now nodes g).0
          ≡ projected t (apply_flagged env verify_ok i nodes (projected t g)).0)
        × ((apply_remote_each now nodes g).1
            ≡ (apply_flagged env verify_ok i nodes (projected t g)).1)
  unfolding apply_remote_each apply_flagged enumerate
  apply_flagged-each now verify_ok i [] t g ready distinct = (refl, refl)
  apply_flagged-each now verify_ok i (n ∷ nodes) t g ready distinct =
      let g' : StateGraph P = (apply_remote_checked env now n g).0 in
      let same = checked-flagged now n t g ready.0.0 in
      let through = flagged_step-projected n (verify_ok i) t g in
      let flag : (contains g.verified_ids n.id || check crypto n) ≡ verify_ok i = sym ready.0.1 in
      let next : projected t g' ≡ (flagged_step env n (verify_ok i) (projected t g)).0 =
        same.0 ∙ ap (λ b. projected t (flagged_step env n b g).0) flag ∙ sym through.0 in
      let outcome : (apply_remote_checked env now n g).1
          ≡ (flagged_step env n (verify_ok i) (projected t g)).1 =
        same.1 ∙ ap (λ b. (flagged_step env n b g).1) flag ∙ sym through.1 in
      let rest =
        apply_flagged-each now verify_ok (suc i) nodes t g'
          (step-All-Ready now verify_ok n g (enumerate (suc i) nodes) distinct.0 ready.1)
          distinct.1 in
      (
        rest.0 ∙ ap (λ h. projected t (apply_flagged env verify_ok (suc i) nodes h).0) next,
        ap₂ (file_outcome n) outcome
            (rest.1 ∙ ap (λ h. (apply_flagged env verify_ok (suc i) nodes h).1) next),
      )
