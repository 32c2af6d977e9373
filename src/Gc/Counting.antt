-- ===== src/Gc/Counting.antt =====
-- The stores of core/gc/src with their deletes counted: the world is wrapped so that it holds the count.
use nodalmerge.Base.{ℕ, suc, ◌≡◌}
use nodalmerge.Gc.{GcRunDelta, GcResult, done, refused, Call, Stores}

-- a call that leaves the world with the given count beside it
abbrev pub counting_as : {W A : Type 0} → Call W A → ℕ → W → GcResult A × (ℕ × W)
counting_as call n w = ((call w).0, (n, (call w).1))

abbrev pub uncounted : {W A : Type 0} → Call W A → Call (ℕ × W) A
uncounted call v = counting_as call v.0 v.1

-- The stores as they are, with the calls of `delete` counted, those that fail too.
abbrev pub counting : {W : Type 0} → Stores W → Stores (ℕ × W)
counting stores = record {
  collect_live_hashes = uncounted stores.collect_live_hashes;
  upsert_active_seen_batch =
      λ run_id live now. uncounted (stores.upsert_active_seen_batch run_id live now);
  iter_unmarked_candidates = λ run_id. uncounted (stores.iter_unmarked_candidates run_id);
  iter_pending_older_than = λ cutoff. uncounted (stores.iter_pending_older_than cutoff);
  set_pending_delete = λ hash at. uncounted (stores.set_pending_delete hash at);
  set_deleted = λ hash at. uncounted (stores.set_deleted hash at);
  clear_pending_delete = λ hash. uncounted (stores.clear_pending_delete hash);
  start_run = λ mode now. uncounted (stores.start_run mode now);
  apply_delta = λ run_id delta. uncounted (stores.apply_delta run_id delta);
  finish_run = λ run_id finish. uncounted (stores.finish_run run_id finish);
  is_pinned = λ hash. uncounted (stores.is_pinned hash);
  head = λ bucket key. uncounted (stores.head bucket key);
  delete = λ bucket key v. counting_as (stores.delete bucket key) (suc v.0) v.1;
}

-- the number of deletes that the run reports, if it succeeds
abbrev pub Reports : {W : Type 0} → ℕ → GcResult GcRunDelta × W → Type 0
Reports n (done delta, w) = delta.hard_deleted_count ≡ n
Reports n (refused e, w) = Unit
