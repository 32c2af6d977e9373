-- ===== src/Replay/Rounds.antt =====
-- What the retry loop of core/crdt/src/replay.rs and compaction.rs leaves pending.
use nodalmerge.Base.{
  ℕ, zero, suc, ◌≤◌, ◌≡◌, refl, sym, ap, subst, ◌∙◌, true, false, List, [], ◌∷◌, arith, inl, inr,
  ◌==◌, ==_iff, length, All, Bool-cases, ◌⊎◌,
}
use nodalmerge.Error.{SyncError, Result, ok, err}
use nodalmerge.Node.{SyncNode}
use nodalmerge.Storage.{contains_node}
use nodalmerge.Graph.{StateGraph, Env, missing_parent}
use nodalmerge.Graph.Admission.{is_none}
use nodalmerge.Replay.{retry_pass, retry_loop}
use nodalmerge.Replay.Settle.{IsOrphan, IsStored, pass-stored, pass-covers, pass-length, pass-stuck}

pub Result-cases {ℓ} :
    {A : Type ℓ} (r : Result A) → ((a : A) × (r ≡ ok a)) ⊎ ((e : SyncError) × (r ≡ err e))
Result-cases (ok a) = inl (a, refl)
Result-cases (err e) = inr (e, refl)

module _ {P : Type 0} (env : Env P) (prepare : SyncNode → StateGraph P → StateGraph P)
    (keep : (node : SyncNode) (g : StateGraph P) → (prepare node g).nodes ≡ g.nodes) where
  -- how a round that succeeds ends
  pub data Round (rounds : ℕ) (node : SyncNode) (pending left : List SyncNode) (g g' : StateGraph P)
      : Type 0 where
    stuck :
        retry_pass env prepare (node ∷ pending) g ≡ ok (left, g')
        → length left ≡ suc (length pending)
        → Round rounds node pending left g g'
    progress :
        (still : List SyncNode) (between : StateGraph P)
        → retry_pass env prepare (node ∷ pending) g ≡ ok (still, between)
        → length still ≤ length pending
        → retry_loop env prepare rounds still between ≡ ok (left, g')
        → Round rounds node pending left g g'

  pub loop-Round :
      (rounds : ℕ) (node : SyncNode) (pending left : List SyncNode) (g g' : StateGraph P)
      → retry_loop env prepare (suc rounds) (node ∷ pending) g ≡ ok (left, g')
      → Round rounds node pending left g g'
  unfolding retry_loop
  loop-Round rounds node pending left g g' done =
      elim (Result-cases (retry_pass env prepare (node ∷ pending) g)) [
        | inr (e, failed) ↦ absurd (ground arith)
        | inl ((still, between), passed) ↦
            let bound = pass-length env prepare keep (node ∷ pending) still g between passed in
            elim (Bool-cases (length still == suc (length pending))) [
              | inl same ↦
                  let e : ◌≡◌ {A = Result (List SyncNode × StateGraph P)} (ok (still, between))
                      (ok (left, g')) =
                    rw (passed, same, retry_loop) at done in
                  let e' : ◌≡◌ {A = List SyncNode × StateGraph P} (still, between) (left, g') =
                    ground arith in
                  stuck (passed ∙ e) (
                    sym (ap (λ (p : List SyncNode × StateGraph P). length p.0) e')
                    ∙ (==_iff _ _).0 same)
              | inr fewer ↦
                  progress still between passed (ground arith)
                    (rw (passed, fewer, retry_loop) at done)
            ]
      ]

  pub loop-stored :
      (rounds : ℕ) (pending left : List SyncNode) (g g' : StateGraph P) (x : ℕ)
      → retry_loop env prepare rounds pending g ≡ ok (left, g')
      → contains_node g.nodes x ≡ true
      → contains_node g'.nodes x ≡ true
  unfolding retry_loop
  loop-stored zero pending left g g' x done h = ground arith
  loop-stored (suc rounds) [] left g g' x done h = ground arith
  loop-stored (suc rounds) (node ∷ pending) left g g' x done h =
      elim (loop-Round rounds node pending left g g' done) [
        | stuck passed same ↦ pass-stored env prepare keep (node ∷ pending) left g g' x passed h
        | progress still between passed fewer next ↦
            loop-stored rounds still left between g' x next
              (pass-stored env prepare keep (node ∷ pending) still g between x passed h)
      ]

  -- each node that was pending is stored at the end or left
  pub loop-covers {ℓ} :
      (Q : SyncNode → Type ℓ) (rounds : ℕ) (pending left : List SyncNode) (g g' : StateGraph P)
      → retry_loop env prepare rounds pending g ≡ ok (left, g')
      → ((n : SyncNode) → IsStored g' n → Q n)
      → All Q left
      → All Q pending
  unfolding retry_loop
  loop-covers Q zero pending left g g' done closed h = subst (All Q) (ground arith) h
  loop-covers Q (suc rounds) [] left g g' done closed h = tt
  loop-covers Q (suc rounds) (node ∷ pending) left g g' done closed h =
      elim (loop-Round rounds node pending left g g' done) [
        | stuck passed same ↦
            pass-covers env prepare keep Q (node ∷ pending) left g g' passed closed h
        | progress still between passed fewer next ↦
            pass-covers env prepare keep Q (node ∷ pending) still g between passed
              (λ n stored. closed n (loop-stored rounds still left between g' n.id next stored))
              (loop-covers Q rounds still left between g' next closed h)
      ]

  -- with a round for each node, a node that is left misses a parent
  pub loop-orphans :
      (rounds : ℕ) (pending left : List SyncNode) (g g' : StateGraph P)
      → length pending ≤ rounds
      → retry_loop env prepare rounds pending g ≡ ok (left, g')
      → All (IsOrphan g') left
  unfolding retry_loop
  loop-orphans zero [] left g g' enough done =
      let none_left : [] ≡ left = ground arith in subst (All (IsOrphan g')) none_left tt
  loop-orphans zero (n ∷ pending) left g g' enough done = absurd (omega arith)
  loop-orphans (suc rounds) [] left g g' enough done =
      let none_left : [] ≡ left = ground arith in subst (All (IsOrphan g')) none_left tt
  loop-orphans (suc rounds) (node ∷ pending) left g g' enough done =
      elim (loop-Round rounds node pending left g g' done) [
        | stuck passed same ↦
            let (nodes, others, orphans) =
              pass-stuck env prepare keep (node ∷ pending) left g g' passed same in
            subst (All (IsOrphan g')) (sym others) (
              subst
                (λ s.
                  All (λ (n : SyncNode). is_none (missing_parent s n.transaction.parents) ≡ false)
                    (node ∷ pending))
                (sym nodes) orphans)
        | progress still between passed fewer next ↦
            loop-orphans rounds still left between g' (omega arith) next
      ]

  -- more rounds than nodes change nothing
  pub loop-enough :
      (rounds more : ℕ) (pending : List SyncNode) (g : StateGraph P)
      → length pending ≤ rounds
      → length pending ≤ more
      → retry_loop env prepare rounds pending g ≡ retry_loop env prepare more pending g
  unfolding retry_loop
  loop-enough zero zero pending g h k = refl
  loop-enough zero (suc more) [] g h k = refl
  loop-enough (suc rounds) zero [] g h k = refl
  loop-enough zero (suc more) (n ∷ pending) g h k = absurd (omega arith)
  loop-enough (suc rounds) zero (n ∷ pending) g h k = absurd (omega arith)
  loop-enough (suc rounds) (suc more) [] g h k = refl
  loop-enough (suc rounds) (suc more) (node ∷ pending) g h k =
      elim (Result-cases (retry_pass env prepare (node ∷ pending) g)) [
        | inr (e, failed) ↦ rw (failed, retry_loop) refl
        | inl ((still, between), passed) ↦
            let bound = pass-length env prepare keep (node ∷ pending) still g between passed in
            elim (Bool-cases (length still == suc (length pending))) [
              | inl same ↦ rw (passed, same, retry_loop) refl
              | inr fewer ↦
                  rw (passed, fewer, retry_loop)
                    (loop-enough rounds more still between (ground arith) (ground arith))
            ]
      ]
