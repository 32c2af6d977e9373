-- ===== src/Gc/Store.antt =====
-- server/server/src/gc_store.rs: `SqliteGcStore`. A table is its list of rows, and each statement the
-- change that it makes; the database is a parameter in that `breaks` says which calls fail, by their
-- number, and a statement that fails changes nothing. The objects are a set of buckets and keys. The live
-- hashes, the pins, the scheme of the keys and the ids of runs are parameters.
use nodalmerge.Base.{
  ℕ, ◌+◌, Bool, true, false, not, ◌||◌, ◌&&◌, Bytes, List, [], ◌∷◌, ◌++◌, Option, none, some, leb,
  if◌then◌else◌, bytes_eq, retain,
}
use nodalmerge.Gc.{
  AssetState, AssetRecord, GcRunMode, GcRunStatus, GcRunDelta, GcRunFinish, GcError, GcResult, done,
  refused, Call, Stores, is_pending, no_delta,
}

pub record GcRun : Type 0 where
  pub run_id : Bytes
  pub mode : GcRunMode
  pub started_at : ℕ
  pub finished_at : Option ℕ
  pub status : Option GcRunStatus
  pub counts : GcRunDelta

pub record World : Type 0 where
  pub assets : List AssetRecord
  pub runs : List GcRun
  pub objects : Bytes → Bytes → Bool
  pub calls : ℕ

unfoldable pub is_deleted : AssetState → Bool
is_deleted AssetState.deleted = true
is_deleted _ = false

-- `UPDATE gc_assets SET … WHERE hash = …`
unfoldable pub update_rows :
    Bytes → (AssetRecord → AssetRecord) → List AssetRecord → List AssetRecord
update_rows hash change [] = []
update_rows hash change (row ∷ rows) =
    (if bytes_eq row.hash hash then change row else row) ∷ update_rows hash change rows

unfoldable pub has_row : Bytes → List AssetRecord → Bool
has_row hash [] = false
has_row hash (row ∷ rows) = bytes_eq row.hash hash || has_row hash rows

-- the update of `UPSERT_ACTIVE_SEEN_SQL`
unfoldable pub seen_again : Bytes → ℕ → AssetRecord → AssetRecord
seen_again run_id now row = record row {
  last_seen_at = now;
  state = AssetState.active;
  pending_delete_at = none;
  last_marked_run_id = some run_id;
  mark_count = row.mark_count + 1;
  updated_at = now;
}

-- `'blobs'`
abbrev pub blobs : Bytes
blobs = b'b' ∷ b'l' ∷ b'o' ∷ b'b' ∷ b's' ∷ []

-- the row that `UPSERT_ACTIVE_SEEN_SQL` inserts
unfoldable pub first_seen : Bytes × Bytes → Bytes → Bytes → ℕ → AssetRecord
first_seen address run_id hash now = record {
  hash = hash;
  object_key = address.1;
  bucket = address.0;
  namespace = blobs;
  first_seen_at = now;
  last_seen_at = now;
  state = AssetState.active;
  pending_delete_at = none;
  deleted_at = none;
  last_marked_run_id = some run_id;
  mark_count = 1;
  size_bytes = none;
  content_type = none;
  is_admin_pinned = false;
  pin_reason = none;
  updated_at = now;
}

unfoldable pub to_pending : ℕ → AssetRecord → AssetRecord
to_pending at row = record row {
  state = AssetState.pending_delete;
  pending_delete_at = some at;
  updated_at = at;
}

unfoldable pub to_deleted : ℕ → AssetRecord → AssetRecord
to_deleted at row = record row { state = AssetState.deleted; deleted_at = some at; updated_at = at }

-- the update of `clear_pending_delete`
unfoldable pub to_active : AssetRecord → AssetRecord
to_active row = record row { state = AssetState.active; pending_delete_at = none }

-- the condition of `iter_unmarked_candidates`
unfoldable pub is_unmarked : Bytes → AssetRecord → Bool
is_unmarked run_id row =
    not (is_deleted row.state)
    && elim row.last_marked_run_id [ none ↦ true | some id ↦ not (bytes_eq id run_id) ]

-- the condition of `iter_pending_older_than`
unfoldable pub is_expired : ℕ → AssetRecord → Bool
is_expired cutoff row =
    is_pending row.state && elim row.pending_delete_at [ none ↦ false | some at ↦ leb at cutoff ]

unfoldable pub add_delta : GcRunDelta → GcRunDelta → GcRunDelta
add_delta a b = record {
  marked_count = a.marked_count + b.marked_count;
  newly_pending_count = a.newly_pending_count + b.newly_pending_count;
  hard_deleted_count = a.hard_deleted_count + b.hard_deleted_count;
  skipped_pinned_count = a.skipped_pinned_count + b.skipped_pinned_count;
  error_count = a.error_count + b.error_count;
}

unfoldable pub update_runs : Bytes → (GcRun → GcRun) → List GcRun → List GcRun
update_runs run_id change [] = []
update_runs run_id change (run ∷ runs) =
    (if bytes_eq run.run_id run_id then change run else run) ∷ update_runs run_id change runs

unfoldable pub begin_run : Bytes → GcRunMode → ℕ → World → World
begin_run run_id mode now w = record w {
  runs =
      w.runs
      ++ record {
        run_id = run_id;
        mode = mode;
        started_at = now;
        finished_at = none;
        status = none;
        counts = no_delta;
      }
        ∷ [];
}

unfoldable pub count_run : Bytes → GcRunDelta → World → World
count_run run_id delta w = record w {
  runs = update_runs run_id (λ r. record r { counts = add_delta r.counts delta }) w.runs;
}

unfoldable pub end_run : Bytes → GcRunFinish → World → World
end_run run_id finish w = record w {
  runs =
      update_runs run_id
        (λ r. record r { finished_at = some finish.finished_at; status = some finish.status })
        w.runs;
}

module _ (key_scheme : Bytes → Bytes × Bytes) where
  unfoldable pub upsert : Bytes → ℕ → Bytes → List AssetRecord → List AssetRecord
  upsert run_id now hash rows =
      if has_row hash rows
      then update_rows hash (seen_again run_id now) rows
      else rows ++ first_seen (key_scheme hash) run_id hash now ∷ []

  unfoldable pub upserts : Bytes → ℕ → List Bytes → List AssetRecord → List AssetRecord
  upserts run_id now [] rows = rows
  upserts run_id now (hash ∷ hashes) rows = upserts run_id now hashes (upsert run_id now hash rows)

-- the database, with its hashes and pins
pub record Backend : Type 0 where
  pub breaks : ℕ → Bool
  pub key_scheme : Bytes → Bytes × Bytes
  pub new_run_id : ℕ → Bytes
  pub live : GcResult (List Bytes)
  pub pins : Bytes → GcResult Bool

module _ (db : Backend) where
  open db use {breaks, key_scheme, new_run_id, live, pins}

  -- a statement, or an error of the database
  unfoldable pub execute : {A : Type 0} → (World → A × World) → Call World A
  execute statement w =
      let counted = record w { calls = w.calls + 1 } in
      if breaks w.calls
      then (refused GcError.backend, counted)
      else (done (statement counted).0, (statement counted).1)

  -- one transaction
  unfoldable pub upsert_active_seen_batch : Bytes → List Bytes → ℕ → Call World (Unit {0})
  upsert_active_seen_batch run_id [] now w = (done tt, w)
  upsert_active_seen_batch run_id (hash ∷ hashes) now w =
      execute
        (λ v. (tt, record v { assets = upserts key_scheme run_id now (hash ∷ hashes) v.assets })) w

  unfoldable pub gc_store : Stores World
  unfolding upsert_active_seen_batch execute begin_run count_run end_run
  gc_store = record {
    collect_live_hashes = λ w. (live, w);
    upsert_active_seen_batch = upsert_active_seen_batch;
    iter_unmarked_candidates = λ run_id. execute (λ v. (retain (is_unmarked run_id) v.assets, v));
    iter_pending_older_than = λ cutoff. execute (λ v. (retain (is_expired cutoff) v.assets, v));
    set_pending_delete = λ hash at.
        execute (λ v. (tt, record v { assets = update_rows hash (to_pending at) v.assets }));
    set_deleted = λ hash at.
        execute (λ v. (tt, record v { assets = update_rows hash (to_deleted at) v.assets }));
    clear_pending_delete =
        λ hash. execute (λ v. (tt, record v { assets = update_rows hash to_active v.assets }));
    start_run =
        λ mode now. execute (λ v. (new_run_id v.calls, begin_run (new_run_id v.calls) mode now v));
    apply_delta = λ run_id delta. execute (λ v. (tt, count_run run_id delta v));
    finish_run = λ run_id finish. execute (λ v. (tt, end_run run_id finish v));
    is_pinned = λ hash w. (pins hash, w);
    head = λ bucket key. execute (λ v. (v.objects bucket key, v));
    delete = λ bucket key. execute (λ v. (
      tt,
      record v { objects = λ b k. v.objects b k && not (bytes_eq b bucket && bytes_eq k key) },
    ));
  }
