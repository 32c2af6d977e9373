-- ===== src/Replay/Keeps.antt =====
-- What the retry loop of core/crdt/src/replay.rs keeps, and the graph of a replay.
use nodalmerge.Base.{ℕ, zero, suc, ◌≡◌, refl, subst, List, [], ◌∷◌, none, arith, length, All}
use nodalmerge.Error.{Result, ok, err}
use nodalmerge.Node.{SyncNode}
use nodalmerge.Graph.{StateGraph, Env, new_graph, set_policy}
use nodalmerge.Graph.Remote.{apply_remote}
use nodalmerge.Graph.Valid.{IsValid}
use nodalmerge.Graph.Keeps.{new_graph-IsValid, apply_remote_checked-IsValid}
use nodalmerge.Replay.{
  PolicyTimelineEntry, retry_pass, retry_loop, prepare_policy, sorted_timeline, unless_pending,
  replay_graph,
}
use nodalmerge.Replay.Settle.{first_settled, first_deferred, IsStored, pass-First}
use nodalmerge.Replay.Rounds.{stuck, progress, loop-Round, loop-covers}

module _ {P : Type 0} (env : Env P) (prepare : SyncNode → StateGraph P → StateGraph P)
    (keep : (node : SyncNode) (g : StateGraph P) → (prepare node g).nodes ≡ g.nodes)
    (ready : (node : SyncNode) (g : StateGraph P) → IsValid g → IsValid (prepare node g)) where
  step-IsValid :
      (node : SyncNode) (g : StateGraph P)
      → IsValid g
      → IsValid (apply_remote env node (prepare node g)).0
  unfolding apply_remote
  step-IsValid node g v =
      apply_remote_checked-IsValid env none node (prepare node g) (ready node g v)

  pass-IsValid :
      (pending left : List SyncNode) (g g' : StateGraph P)
      → retry_pass env prepare pending g ≡ ok (left, g')
      → IsValid g
      → IsValid g'
  unfolding retry_pass
  pass-IsValid [] left g g' done v = let same : g ≡ g' = ground arith in subst IsValid same v
  pass-IsValid (node ∷ pending) left g g' done v =
      elim (pass-First env prepare keep node pending left g g' done) [
        | first_settled settled next ↦ pass-IsValid pending left _ g' next (step-IsValid node g v)
        | first_deferred rest deferred same next ↦
            pass-IsValid pending rest _ g' next (step-IsValid node g v)
      ]

  pub loop-IsValid :
      (rounds : ℕ) (pending left : List SyncNode) (g g' : StateGraph P)
      → retry_loop env prepare rounds pending g ≡ ok (left, g')
      → IsValid g
      → IsValid g'
  unfolding retry_loop
  loop-IsValid zero pending left g g' done v =
      let same : g ≡ g' = ground arith in subst IsValid same v
  loop-IsValid (suc rounds) [] left g g' done v =
      let same : g ≡ g' = ground arith in subst IsValid same v
  loop-IsValid (suc rounds) (node ∷ pending) left g g' done v =
      elim (loop-Round env prepare keep rounds node pending left g g' done) [
        | stuck passed same ↦ pass-IsValid (node ∷ pending) left g g' passed v
        | progress still between passed fewer next ↦
            loop-IsValid rounds still left between g' next
              (pass-IsValid (node ∷ pending) still g between passed v)
      ]

module _ {P : Type 0} (env : Env P) where
  unless_pending-ok :
      (r : Result (List SyncNode × StateGraph P)) {g : StateGraph P}
      → unless_pending env r ≡ ok g
      → r ≡ ok ([], g)
  unfolding unless_pending
  unless_pending-ok (err e) h = absurd (ground arith)
  unless_pending-ok (ok ([], g)) h = ground arith
  unless_pending-ok (ok (n ∷ left, g)) h = absurd (ground arith)

  -- A replay that succeeds gives a valid graph that holds every one of the nodes, whatever their order
  -- and the policy timeline.
  pub replay_graph-IsStored :
      (projections : P) (nodes : List SyncNode) (timeline : List PolicyTimelineEntry)
      {g : StateGraph P}
      → replay_graph env projections nodes timeline ≡ ok g
      → IsValid g × All (IsStored g) nodes
  unfolding replay_graph prepare_policy set_policy
  replay_graph-IsStored projections nodes timeline {g} done =
      let prepare : SyncNode → StateGraph P → StateGraph P =
        prepare_policy env (sorted_timeline timeline) in
      let looped = unless_pending-ok _ done in
      (
        loop-IsValid env prepare (λ n h. refl) (λ n h v. v) (length nodes) nodes []
            (new_graph projections) g looped (new_graph-IsValid projections),
        loop-covers env prepare (λ n h. refl) (IsStored g) (length nodes) nodes []
            (new_graph projections) g looped (λ n stored. stored) tt,
      )
