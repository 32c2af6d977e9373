-- ===== src/Compaction/Rebuild.antt =====
-- The graph that `rebuild_from_snapshot` of core/crdt/src/compaction.rs returns.
use nodalmerge.Base.{◌≡◌, refl, ◌⊎◌, inl, inr, List, none, arith, length, All}
use nodalmerge.Error.{Result, ok, err}
use nodalmerge.Node.{SyncNode}
use nodalmerge.Graph.{StateGraph, Env, new_graph}
use nodalmerge.Graph.Remote.{apply_remote}
use nodalmerge.Graph.Valid.{IsValid, All-map}
use nodalmerge.Graph.Keeps.{new_graph-IsValid, apply_remote_checked-IsValid}
use nodalmerge.Replay.{Attempt, attempt_of, retry_loop}
use nodalmerge.Replay.Settle.{IsStored, IsOrphan, apply_remote-settled}
use nodalmerge.Replay.Rounds.{loop-covers, loop-stored, loop-orphans}
use nodalmerge.Replay.Keeps.{loop-IsValid}
use nodalmerge.Compaction.{ArchiveCodec}
use nodalmerge.Compaction.Receive.{rebuilt, rebuild_from_snapshot}

module _ {P : Type 0} (env : Env P) (codec : ArchiveCodec) where
  rebuilt-ok :
      (r : Result (List SyncNode × StateGraph P)) {g : StateGraph P}
      → rebuilt env codec r ≡ ok g
      → (left : List SyncNode) × (r ≡ ok (left, g))
  unfolding rebuilt
  rebuilt-ok (err e) h = absurd (ground arith)
  rebuilt-ok (ok (left, g)) h = (left, ground arith)

  -- the steps of a rebuild that succeeds
  rebuild-steps :
      (projections : P) (snapshot : SyncNode) (delta : List SyncNode) {g : StateGraph P}
      → rebuild_from_snapshot env codec projections snapshot delta ≡ ok g
      → (attempt_of (apply_remote env snapshot (new_graph projections)).1 ≡ Attempt.settled)
        × (rebuilt env codec (
              retry_loop env
                (λ node h. h)
                (length delta)
                delta
                (apply_remote env snapshot (new_graph projections)).0)
            ≡ ok g)
  unfolding rebuild_from_snapshot attempt_of
  rebuild-steps projections snapshot delta done = (ground arith, ground arith)

  -- A rebuild that succeeds gives a valid graph that holds the snapshot, and each node of the delta
  -- is in the graph or has a parent that is not. So a node with an unknown parent is left out and does not
  -- make the rebuild fail, against what the documentation says of errors.
  pub rebuild_from_snapshot-IsStored :
      (projections : P) (snapshot : SyncNode) (delta : List SyncNode) {g : StateGraph P}
      → rebuild_from_snapshot env codec projections snapshot delta ≡ ok g
      → IsValid g × IsStored g snapshot × All (λ n. IsStored g n ⊎ IsOrphan g n) delta
  unfolding apply_remote
  rebuild_from_snapshot-IsStored projections snapshot delta {g} done =
      let start : StateGraph P = (apply_remote env snapshot (new_graph projections)).0 in
      let keep : SyncNode → StateGraph P → StateGraph P = λ node h. h in
      let (settled, looped) = rebuild-steps projections snapshot delta done in
      let (left, ended) = rebuilt-ok _ looped in
      let valid : IsValid start =
        apply_remote_checked-IsValid env none snapshot (new_graph projections)
          (new_graph-IsValid projections) in
      (
        loop-IsValid env keep (λ n h. refl) (λ n h v. v) (length delta) delta left start g ended
            valid,
        loop-stored env keep (λ n h. refl) (length delta) delta left start g snapshot.id ended
            (apply_remote-settled env snapshot (new_graph projections) settled),
        loop-covers env keep (λ n h. refl) (λ n. IsStored g n ⊎ IsOrphan g n) (length delta) delta
            left start g ended (λ n stored. inl stored)
            (All-map left (λ n orphan. inr orphan)
              (loop-orphans env keep (λ n h. refl) (length delta) delta left start g (omega arith)
                ended)),
      )
