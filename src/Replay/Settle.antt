-- ===== src/Replay/Settle.antt =====
-- The retry loop of core/crdt/src/replay.rs and compaction.rs: which nodes it stores, and that its
-- rounds are enough.
use nodalmerge.Base.{
  ℕ, suc, ◌≤◌, ◌≡◌, refl, ap, subst, ◌∙◌, true, false, List, [], ◌∷◌, arith, inl, inr, ◌==◌,
  if◌then◌else◌, length, All, ◌⊎◌,
}
use nodalmerge.Error.{SyncError, Result, ok, err}
use nodalmerge.Node.{SyncNode, verify_signature}
use nodalmerge.Storage.{contains_node, holds, put, insert_entry}
use nodalmerge.Graph.{StateGraph, Env, insert_node, inserted, missing_parent, check_lamport_ceiling}
use nodalmerge.Graph.Remote.{
  apply_remote, apply_remote_checked, check_node, check_hash, check_skew, verify_once,
  apply_remote_verified, apply_remote_verified_no_projection,
}
use nodalmerge.Graph.Admission.{is_none}
use nodalmerge.Replay.{Attempt, attempt_of, defer, retry_pass}

holds-insert_entry :
    (node : SyncNode) (entries : List SyncNode) (x : ℕ)
    → holds (insert_entry node entries) x ≡ (if node.id == x then true else holds entries x)
unfolding holds insert_entry
holds-insert_entry node [] x = ground arith
holds-insert_entry node (n ∷ entries) x = ground (arith, holds-insert_entry node entries x)

-- a parent of the node is not stored
abbrev pub IsOrphan : {P : Type 0} → StateGraph P → SyncNode → Type 0
IsOrphan g n = is_none (missing_parent g.nodes n.transaction.parents) ≡ false

abbrev pub IsStored : {P : Type 0} → StateGraph P → SyncNode → Type 0
IsStored g n = contains_node g.nodes n.id ≡ true

module _ {P : Type 0} (env : Env P) where
  -- an application keeps what is stored
  apply_remote-stored :
      (node : SyncNode) (g : StateGraph P) (x : ℕ)
      → contains_node g.nodes x ≡ true
      → contains_node (apply_remote env node g).0.nodes x ≡ true
  unfolding apply_remote apply_remote_checked verify_once apply_remote_verified
      apply_remote_verified_no_projection insert_node inserted put contains_node
  apply_remote-stored node g x h = ground (arith, holds-insert_entry node g.nodes.entries x)

  -- a node that is settled is stored
  pub apply_remote-settled :
      (node : SyncNode) (g : StateGraph P)
      → attempt_of (apply_remote env node g).1 ≡ Attempt.settled
      → IsStored (apply_remote env node g).0 node
  unfolding apply_remote apply_remote_checked verify_once apply_remote_verified check_node
      apply_remote_verified_no_projection insert_node inserted put contains_node attempt_of
      check_hash check_lamport_ceiling check_skew verify_signature
  apply_remote-settled node g h = ground (arith, holds-insert_entry node g.nodes.entries node.id)

  apply_remote-deferred :
      (node : SyncNode) (g : StateGraph P)
      → attempt_of (apply_remote env node g).1 ≡ Attempt.deferred
      → ((apply_remote env node g).0.nodes ≡ g.nodes) × IsOrphan g node
  unfolding apply_remote apply_remote_checked verify_once apply_remote_verified check_node
      apply_remote_verified_no_projection insert_node inserted put contains_node attempt_of
      check_hash check_lamport_ceiling check_skew verify_signature is_none
  apply_remote-deferred node g h = ground arith

module _ {P : Type 0} where
  defer-ok :
      (node : SyncNode) (r : Result (List SyncNode × StateGraph P)) {left : List SyncNode}
      {g' : StateGraph P}
      → defer node r ≡ ok (left, g')
      → (rest : List SyncNode) × (left ≡ node ∷ rest) × (r ≡ ok (rest, g'))
  unfolding defer
  defer-ok node (ok (rest, g)) e = (rest, ground arith, ground arith)
  defer-ok node (err x) e = absurd (ground arith)

module _ {P : Type 0} (env : Env P) (prepare : SyncNode → StateGraph P → StateGraph P)
    (keep : (node : SyncNode) (g : StateGraph P) → (prepare node g).nodes ≡ g.nodes) where
  -- how a pass that succeeds treats its first node
  pub data First (node : SyncNode) (pending left : List SyncNode) (g g' : StateGraph P)
      : Type 0 where
    first_settled :
        attempt_of (apply_remote env node (prepare node g)).1 ≡ Attempt.settled
        → retry_pass env prepare pending (apply_remote env node (prepare node g)).0 ≡ ok (left, g')
        → First node pending left g g'
    first_deferred :
        (rest : List SyncNode)
        → attempt_of (apply_remote env node (prepare node g)).1 ≡ Attempt.deferred
        → left ≡ node ∷ rest
        → retry_pass env prepare pending (apply_remote env node (prepare node g)).0 ≡ ok (rest, g')
        → First node pending left g g'

  Attempt-cases :
      (a : Attempt)
      → (a ≡ Attempt.settled)
        ⊎ ((a ≡ Attempt.deferred) ⊎ ((e : SyncError) × (a ≡ Attempt.failed e)))
  Attempt-cases Attempt.settled = inl refl
  Attempt-cases Attempt.deferred = inr (inl refl)
  Attempt-cases (Attempt.failed e) = inr (inr (e, refl))

  pub pass-First :
      (node : SyncNode) (pending left : List SyncNode) (g g' : StateGraph P)
      → retry_pass env prepare (node ∷ pending) g ≡ ok (left, g')
      → First node pending left g g'
  unfolding retry_pass
  pass-First node pending left g g' done =
      elim (Attempt-cases (attempt_of (apply_remote env node (prepare node g)).1)) [
        | inl settled ↦ first_settled settled (rw (settled, retry_pass) at done)
        | inr (inl deferred) ↦
            let (rest, same, next) = defer-ok node _ (rw (deferred, retry_pass) at done) in
            first_deferred rest deferred same next
        | inr (inr (e, failed)) ↦ absurd (ground arith)
      ]

  step-stored :
      (node : SyncNode) (g : StateGraph P) (x : ℕ)
      → contains_node g.nodes x ≡ true
      → contains_node (apply_remote env node (prepare node g)).0.nodes x ≡ true
  step-stored node g x h =
      apply_remote-stored env node (prepare node g) x
        (ap (λ s. contains_node s x) (keep node g) ∙ h)

  pub pass-stored :
      (pending left : List SyncNode) (g g' : StateGraph P) (x : ℕ)
      → retry_pass env prepare pending g ≡ ok (left, g')
      → contains_node g.nodes x ≡ true
      → contains_node g'.nodes x ≡ true
  unfolding retry_pass
  pass-stored [] left g g' x done h = ground arith
  pass-stored (node ∷ pending) left g g' x done h = elim (pass-First node pending left g g' done) [
    | first_settled settled next ↦ pass-stored pending left _ g' x next (step-stored node g x h)
    | first_deferred rest deferred same next ↦
        pass-stored pending rest _ g' x next (step-stored node g x h)
  ]

  -- what holds of the stored nodes and of those left holds of all that were pending
  pub pass-covers {ℓ} :
      (Q : SyncNode → Type ℓ) (pending left : List SyncNode) (g g' : StateGraph P)
      → retry_pass env prepare pending g ≡ ok (left, g')
      → ((n : SyncNode) → IsStored g' n → Q n)
      → All Q left
      → All Q pending
  pass-covers Q [] left g g' done closed h = tt
  pass-covers Q (node ∷ pending) left g g' done closed h =
      elim (pass-First node pending left g g' done) [
        | first_settled settled next ↦ (
          closed node (
              pass-stored pending left _ g' node.id next
                (apply_remote-settled env node (prepare node g) settled)),
          pass-covers Q pending left _ g' next closed h,
        )
        | first_deferred rest deferred same next ↦
            let both : All Q (node ∷ rest) = subst (All Q) same h in
            (both.0, pass-covers Q pending rest _ g' next closed both.1)
      ]

  pub pass-length :
      (pending left : List SyncNode) (g g' : StateGraph P)
      → retry_pass env prepare pending g ≡ ok (left, g')
      → length left ≤ length pending
  unfolding retry_pass
  pass-length [] left g g' done = ground arith
  pass-length (node ∷ pending) left g g' done = elim (pass-First node pending left g g' done) [
    | first_settled settled next ↦ omega (arith, pass-length pending left _ g' next)
    | first_deferred rest deferred same next ↦
        let shorter = pass-length pending rest _ g' next in
        let e : length left ≡ suc (length rest) = ap length same in omega arith
  ]

  step-IsOrphan :
      (node : SyncNode) (g : StateGraph P)
      → attempt_of (apply_remote env node (prepare node g)).1 ≡ Attempt.deferred
      → ((apply_remote env node (prepare node g)).0.nodes ≡ g.nodes) × IsOrphan g node
  step-IsOrphan node g deferred =
      let (same, orphan) = apply_remote-deferred env node (prepare node g) deferred in
      (
        same ∙ keep node g,
        subst (λ s. is_none (missing_parent s node.transaction.parents) ≡ false) (keep node g)
            orphan,
      )

  -- a pass without progress stores nothing, leaves all nodes, and each misses a parent
  pub pass-stuck :
      (pending left : List SyncNode) (g g' : StateGraph P)
      → retry_pass env prepare pending g ≡ ok (left, g')
      → length left ≡ length pending
      → (g'.nodes ≡ g.nodes) × (left ≡ pending) × All (IsOrphan g) pending
  unfolding retry_pass
  pass-stuck [] left g g' done same = (ground arith, ground arith, tt)
  pass-stuck (node ∷ pending) left g g' done same = elim (pass-First node pending left g g' done) [
    | first_settled settled next ↦ absurd (omega (arith, pass-length pending left _ g' next))
    | first_deferred rest deferred e next ↦
        let shorter : length left ≡ suc (length rest) = ap length e in
        let (kept, orphan) = step-IsOrphan node g deferred in
        let (nodes, others, orphans) = pass-stuck pending rest _ g' next (omega arith) in
        (
          nodes ∙ kept,
          e ∙ ap (λ l. node ∷ l) others,
          (
            orphan,
            subst
                (λ s.
                  All (λ (n : SyncNode). is_none (missing_parent s n.transaction.parents) ≡ false)
                    pending)
                kept orphans,
          ),
        )
  ]
