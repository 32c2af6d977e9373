-- ===== src/Gc/Deleted.antt =====
-- Which objects a run of core/gc/src deletes, with the store of server/server/src/gc_store.rs.
use nodalmerge.Base.{◌-◌, ◌<◌, ◌≡◌, refl, true, false, Bytes, List, arith}
use nodalmerge.Gc.{
  GcRunMode, GcRunDelta, GcRunFinish, GcResult, done, refused, Stores, give, run_inner, run_once,
}
use nodalmerge.Gc.Store.{World, gc_store, begin_run, count_run, end_run}
use nodalmerge.Gc.Calls.{Ends, and_then-Ends, Ends-both}
use nodalmerge.Gc.Kept.{Run, MayGo, Kept, execute-Ends}
use nodalmerge.Gc.Sweeps.{sweeps-Ends, mark-Ends}

module _ (r : Run) where
  open r use {db, cfg, before, now}
  open db use {new_run_id, live}

  abbrev stores : Stores World
  stores = gc_store db

  abbrev Same : World → Type 0
  Same w = Kept r w × (w.assets ≡ before.assets)

  apply_delta-Ends :
      (run_id : Bytes) (delta : GcRunDelta) (w : World)
      → Kept r w
      → Ends (Kept r) (λ _ v. Kept r v) (stores.apply_delta run_id delta w)
  unfolding gc_store count_run Kept
  apply_delta-Ends run_id delta w h =
      execute-Ends r (λ v. (tt, count_run run_id delta v)) (λ _ v. Kept r v) w h (λ kept. kept)

  run_inner-Ends :
      (run_id : Bytes) (mode : GcRunMode) (w : World)
      → now - cfg.grace_window < now
      → Same w
      → Ends (Kept r) (λ _ v. Kept r v) (run_inner stores cfg run_id mode now w)
  unfolding run_inner give Ends gc_store
  run_inner-Ends run_id mode w young h =
      and_then-Ends (Kept r) _ _ (λ hashes v. (live ≡ done hashes) × Same v) _ w
        (collected live refl)
        (λ hashes v m.
          and_then-Ends (Kept r) _ _ _ _ v (mark-Ends r hashes m.0 run_id young v m.1.0 m.1.1)
            (λ _ u table.
              and_then-Ends (Kept r) _ _ (λ _ t. Kept r t) _ u
                (sweeps-Ends r hashes m.0 run_id young mode _ u table)
                (λ delta t kept.
                  and_then-Ends (Kept r) _ _ (λ _ v. Kept r v) _ t
                    (apply_delta-Ends run_id delta t kept) (λ _ v last. last))))
    where
      collected :
          (answer : GcResult (List Bytes))
          → live ≡ answer
          → Ends (Kept r) (λ hashes v. (live ≡ done hashes) × Same v) (answer, w)
      collected (done hashes) e = (e, h)
      collected (refused error) e = h.0

  start_run-Ends :
      (mode : GcRunMode) (w : World)
      → Same w
      → Ends (Kept r) (λ _ v. Same v) (stores.start_run mode now w)
  unfolding gc_store begin_run Kept
  start_run-Ends mode w h =
      execute-Ends r (λ v. (new_run_id v.calls, begin_run (new_run_id v.calls) mode now v))
        (λ _ v. Same v) w h.0 (λ kept. (kept, h.1))

  finish_run-Kept :
      (run_id : Bytes) (finish : GcRunFinish) (w : World)
      → Kept r w
      → Kept r (stores.finish_run run_id finish w).1
  unfolding gc_store end_run Kept
  finish_run-Kept run_id finish w h =
      Ends-both (Kept r) (λ _ v. Kept r v) (stores.finish_run run_id finish w) (λ _ v kept. kept)
        (execute-Ends r (λ v. (tt, end_run run_id finish v)) (λ _ v. Kept r v) w h (λ kept. kept))

  finished-Ends :
      (run_id : Bytes) (finish : GcRunFinish) (ran : GcResult GcRunDelta × World)
      → Ends (Kept r) (λ _ v. Kept r v) ran
      → Ends (Kept r) (λ _ v. Kept r v) (ran.0, (stores.finish_run run_id finish ran.1).1)
  unfolding Ends
  finished-Ends run_id finish (done delta, v) h = finish_run-Kept run_id finish v h
  finished-Ends run_id finish (refused e, v) h = finish_run-Kept run_id finish v h

  -- Whatever the mode, and whichever calls of the database or the object store fail, a run deletes an
  -- object only if a row that was there before the run names it that is a tombstone older than the
  -- grace window, is not among the live hashes, which were read, and is pinned neither by its row nor by
  -- the pins, provided that the grace window and the time are not zero.
  pub run_once-MayGo :
      (mode : GcRunMode) (b k : Bytes)
      → 0 < cfg.grace_window
      → 0 < now
      → before.objects b k ≡ true
      → (run_once stores cfg mode now before).1.objects b k ≡ false
      → MayGo r b k
  unfolding run_once Kept
  run_once-MayGo mode b k window time was gone =
      Ends-both (Kept r) (λ _ v. Kept r v) (run_once stores cfg mode now before) (λ _ v kept. kept)
        (and_then-Ends (Kept r) (stores.start_run mode now) _ (λ _ v. Same v) (λ _ v. Kept r v)
          before (start_run-Ends mode before ((λ c l h g. absurd (ground arith)), refl))
          (λ run_id v same.
            finished-Ends run_id _ (run_inner stores cfg run_id mode now v)
              (run_inner-Ends run_id mode v (omega arith) same)))
        b k was gone
