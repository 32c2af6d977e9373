-- ===== src/Tests/Collections.antt =====
-- A run of the garbage collector at a concrete table.
use nodalmerge.Base.{
  ◌≤◌, ◌≡◌, refl, true, false, Bytes, [], ◌∷◌, none, some, arith, bytes_eq, retain,
}
use nodalmerge.Gc.{
  AssetState, AssetRecord, GcRunMode, GcRunDelta, GcCoordinatorConfig, GcResult, done, Stores,
  proceed, and_then, give, pinned_check, soft_loop, soft_sweep, delete_object, hard_loop,
  hard_sweep, sweeps, run_inner, run_once, is_some, is_pending,
}
use nodalmerge.Gc.Store.{
  Backend, World, execute, gc_store, upsert_active_seen_batch, upserts, upsert, has_row,
  update_rows, update_runs, seen_again, first_seen, is_unmarked, is_expired, is_deleted, to_pending,
  to_deleted, begin_run, count_run, end_run, add_delta,
}
use nodalmerge.Gc.Kept.{Run, MayGo}
use nodalmerge.Gc.Deleted.{run_once-MayGo}
use nodalmerge.Gc.Counting.{counting, Reports}
use nodalmerge.Gc.Bound.{run_once-AtMost}

abbrev kept_hash : Bytes
kept_hash = b'l' ∷ []

abbrev old_hash : Bytes
old_hash = b'o' ∷ []

abbrev local : Bytes
local = b'c' ∷ []

abbrev old_row : AssetRecord
old_row = record {
  hash = old_hash;
  object_key = old_hash;
  bucket = local;
  namespace = [];
  first_seen_at = 1;
  last_seen_at = 1;
  state = AssetState.pending_delete;
  pending_delete_at = some 10;
  deleted_at = none;
  last_marked_run_id = none;
  mark_count = 1;
  size_bytes = none;
  content_type = none;
  is_admin_pinned = false;
  pin_reason = none;
  updated_at = 10;
}

abbrev table : World
table = record { assets = old_row ∷ []; runs = []; objects = λ b k. true; calls = 0 }

abbrev config : GcCoordinatorConfig
config = record { grace_window = 50; max_deletes_per_run = 1; require_head_before_delete = true }

abbrev database : Backend
database = record {
  breaks = λ call. false;
  key_scheme = λ hash. (local, hash);
  new_run_id = λ call. call ∷ [];
  live = done (kept_hash ∷ []);
  pins = λ hash. done false;
}

abbrev sweep : Run
sweep = record { db = database; cfg = config; before = table; now = 100 }

abbrev stores : Stores World
stores = gc_store database

abbrev after : GcResult GcRunDelta × World
after = run_once stores config GcRunMode.sweep_hard 100 table

after_counts :
    after.0
    ≡ done (record {
      marked_count = 1;
      newly_pending_count = 0;
      hard_deleted_count = 1;
      skipped_pinned_count = 0;
      error_count = 0;
    })
unfolding run_once run_inner sweeps hard_sweep hard_loop delete_object soft_sweep soft_loop
    pinned_check give and_then proceed is_some is_pending gc_store upsert_active_seen_batch execute
    upserts upsert has_row update_rows update_runs seen_again first_seen is_unmarked is_expired
    is_deleted to_pending to_deleted begin_run count_run end_run add_delta bytes_eq retain
after_counts = refl

old_object_gone : after.1.objects local old_hash ≡ false
unfolding run_once run_inner sweeps hard_sweep hard_loop delete_object soft_sweep soft_loop
    pinned_check give and_then proceed is_some is_pending gc_store upsert_active_seen_batch execute
    upserts upsert has_row update_rows update_runs seen_again first_seen is_unmarked is_expired
    is_deleted to_pending to_deleted begin_run count_run end_run add_delta bytes_eq retain
old_object_gone = refl

run_once-MayGo_example : MayGo sweep local old_hash
run_once-MayGo_example =
    run_once-MayGo sweep GcRunMode.sweep_hard local old_hash (omega arith) (omega arith) refl
      old_object_gone

run_once-AtMost_example :
    ((run_once (counting stores) config GcRunMode.sweep_hard 100 (0, table)).1.0 ≤ 1)
    × Reports
        (run_once (counting stores) config GcRunMode.sweep_hard 100 (0, table)).1.0
        (run_once (counting stores) config GcRunMode.sweep_hard 100 (0, table))
run_once-AtMost_example = run_once-AtMost stores config 100 GcRunMode.sweep_hard table
