-- ===== src/Gc.antt =====
-- core/gc/src: the garbage collector of blobs. `GcCoordinator` marks what is live, turns what is not into
-- tombstones and deletes the objects of old tombstones. Its five traits are one record, `Stores`, of
-- calls that take and leave a world and may fail. A time is a number of milliseconds since the earliest
-- one that a `SystemTime` holds. The messages of errors, and the notes of a run, are left out.
pub mod Store
pub mod Calls
pub mod Marked
pub mod Kept
pub mod Sweeps
pub mod Deleted
pub mod Counting
pub mod Bound
use nodalmerge.Base.{
  ℕ, zero, suc, ◌+◌, ◌-◌, Bool, true, false, ◌||◌, Bytes, List, [], ◌∷◌, Option, none, some, ltb,
  ◌==◌, if◌then◌else◌, length,
}

pub data AssetState : Type 0 where
  uploading : AssetState
  active : AssetState
  grace : AssetState
  sweep_candidate : AssetState
  pinned : AssetState
  pending_delete : AssetState
  deleted : AssetState
  quarantined : AssetState

pub record AssetRecord : Type 0 where
  pub hash : Bytes
  pub object_key : Bytes
  pub bucket : Bytes
  pub namespace : Bytes
  pub first_seen_at : ℕ
  pub last_seen_at : ℕ
  pub state : AssetState
  pub pending_delete_at : Option ℕ
  pub deleted_at : Option ℕ
  pub last_marked_run_id : Option Bytes
  pub mark_count : ℕ
  pub size_bytes : Option ℕ
  pub content_type : Option Bytes
  pub is_admin_pinned : Bool
  pub pin_reason : Option Bytes
  pub updated_at : ℕ

pub data GcRunMode : Type 0 where
  dry_run : GcRunMode
  mark_only : GcRunMode
  sweep_soft : GcRunMode
  sweep_hard : GcRunMode

pub data GcRunStatus : Type 0 where
  running : GcRunStatus
  succeeded : GcRunStatus
  failed : GcRunStatus

pub record GcRunDelta : Type 0 where
  pub marked_count : ℕ
  pub newly_pending_count : ℕ
  pub hard_deleted_count : ℕ
  pub skipped_pinned_count : ℕ
  pub error_count : ℕ

abbrev pub no_delta : GcRunDelta
no_delta = record {
  marked_count = 0;
  newly_pending_count = 0;
  hard_deleted_count = 0;
  skipped_pinned_count = 0;
  error_count = 0;
}

pub record GcRunFinish : Type 0 where
  pub status : GcRunStatus
  pub finished_at : ℕ

pub data GcError : Type 0 where
  backend : GcError
  invalid_state : GcError
  invariant : GcError

pub data GcResult {ℓ} (A : Type ℓ) : Type ℓ where
  done : A → GcResult A
  refused : GcError → GcResult A

-- a call on the world outside, which it changes even if it fails
abbrev pub Call : Type 0 → Type 0 → Type 0
Call W A = W → GcResult A × W

pub record GcCoordinatorConfig : Type 0 where
  pub grace_window : ℕ
  pub max_deletes_per_run : ℕ
  pub require_head_before_delete : Bool

-- `LiveHashSource`, `AssetInventoryStore`, `GcRunStore`, `AdminPinStore` and `BlobObjectStore`
pub record Stores (W : Type 0) : Type 0 where
  pub collect_live_hashes : Call W (List Bytes)
  pub upsert_active_seen_batch : Bytes → List Bytes → ℕ → Call W (Unit {0})
  pub iter_unmarked_candidates : Bytes → Call W (List AssetRecord)
  pub iter_pending_older_than : ℕ → Call W (List AssetRecord)
  pub set_pending_delete : Bytes → ℕ → Call W (Unit {0})
  pub set_deleted : Bytes → ℕ → Call W (Unit {0})
  pub clear_pending_delete : Bytes → Call W (Unit {0})
  pub start_run : GcRunMode → ℕ → Call W Bytes
  pub apply_delta : Bytes → GcRunDelta → Call W (Unit {0})
  pub finish_run : Bytes → GcRunFinish → Call W (Unit {0})
  pub is_pinned : Bytes → Call W Bool
  pub head : Bytes → Bytes → Call W Bool
  pub delete : Bytes → Bytes → Call W (Unit {0})

unfoldable pub is_pending : AssetState → Bool
is_pending AssetState.pending_delete = true
is_pending _ = false

unfoldable pub is_some {ℓ} : {A : Type ℓ} → Option A → Bool
is_some none = false
is_some (some a) = true

module _ {W : Type 0} where
  -- `?`
  unfoldable pub proceed : {A B : Type 0} → (A → Call W B) → GcResult A × W → GcResult B × W
  proceed next (done a, w) = next a w
  proceed next (refused e, w) = (refused e, w)

  unfoldable pub and_then : {A B : Type 0} → Call W A → (A → Call W B) → Call W B
  unfolding proceed
  and_then call next w = proceed next (call w)

  unfoldable pub give : {A : Type 0} → A → Call W A
  give a w = (done a, w)

module _ {W : Type 0} (stores : Stores W) (cfg : GcCoordinatorConfig) where
  unfoldable pub pinned_check : AssetRecord → Call W Bool
  pinned_check rec = if rec.is_admin_pinned then give true else stores.is_pinned rec.hash

  unfoldable pub soft_loop : ℕ → List AssetRecord → GcRunDelta → Call W GcRunDelta
  soft_loop now [] delta = give delta
  soft_loop now (rec ∷ candidates) delta =
      if is_some rec.pending_delete_at || is_pending rec.state
      then soft_loop now candidates delta
      else and_then (pinned_check rec) (λ pin.
        if pin
        then soft_loop now candidates
            (record delta { skipped_pinned_count = delta.skipped_pinned_count + 1 })
        else and_then (stores.set_pending_delete rec.hash now) (λ _.
          soft_loop now candidates
            (record delta { newly_pending_count = delta.newly_pending_count + 1 })))

  unfoldable pub soft_sweep : Bytes → ℕ → GcRunDelta → Call W GcRunDelta
  soft_sweep run_id now delta =
      and_then (stores.iter_unmarked_candidates run_id)
        (λ candidates. soft_loop now candidates delta)

  -- the object is deleted, and then its row
  unfoldable pub delete_object : ℕ → AssetRecord → Call W (Unit {0})
  delete_object now rec =
      and_then (stores.delete rec.bucket rec.object_key) (λ _. stores.set_deleted rec.hash now)

  unfoldable pub hard_loop : ℕ → ℕ → List AssetRecord → GcRunDelta → Call W GcRunDelta
  hard_loop now remaining [] delta = give delta
  hard_loop now zero (rec ∷ candidates) delta = give delta
  hard_loop now (suc remaining) (rec ∷ candidates) delta = and_then (pinned_check rec) (λ pin.
      if pin
      then hard_loop now (suc remaining) candidates
          (record delta { skipped_pinned_count = delta.skipped_pinned_count + 1 })
      else and_then
          (if cfg.require_head_before_delete
            then stores.head rec.bucket rec.object_key
            else give true)
          (λ exists.
            if exists
            then and_then (delete_object now rec) (λ _.
              hard_loop now remaining candidates
                (record delta { hard_deleted_count = delta.hard_deleted_count + 1 }))
            else and_then (stores.set_deleted rec.hash now)
                (λ _. hard_loop now (suc remaining) candidates delta)))

  -- `checked_sub` of the grace window
  unfoldable pub hard_sweep : ℕ → GcRunDelta → Call W GcRunDelta
  hard_sweep now delta =
      if ltb now cfg.grace_window
      then (λ w. (refused GcError.invariant, w))
      else and_then (stores.iter_pending_older_than (now - cfg.grace_window))
          (λ candidates. hard_loop now cfg.max_deletes_per_run candidates delta)

  unfoldable pub sweeps : GcRunMode → Bytes → ℕ → GcRunDelta → Call W GcRunDelta
  sweeps GcRunMode.dry_run run_id now delta = give delta
  sweeps GcRunMode.mark_only run_id now delta = give delta
  sweeps GcRunMode.sweep_soft run_id now delta = soft_sweep run_id now delta
  sweeps GcRunMode.sweep_hard run_id now delta =
      and_then (soft_sweep run_id now delta) (λ swept. hard_sweep now swept)

  unfoldable pub run_inner : Bytes → GcRunMode → ℕ → Call W GcRunDelta
  run_inner run_id mode now = and_then stores.collect_live_hashes (λ live.
      and_then (stores.upsert_active_seen_batch run_id live now) (λ _.
        and_then (sweeps mode run_id now (record no_delta { marked_count = length live }))
          (λ delta. and_then (stores.apply_delta run_id delta) (λ _. give delta))))

  unfoldable pub status_of : GcResult GcRunDelta → GcRunStatus
  status_of (done delta) = GcRunStatus.succeeded
  status_of (refused e) = GcRunStatus.failed

  -- a run that cannot be recorded as finished gives its result all the same
  unfoldable pub run_once : GcRunMode → ℕ → Call W GcRunDelta
  run_once mode now = and_then (stores.start_run mode now) (λ run_id w.
      let ran = run_inner run_id mode now w in
      let finish : GcRunFinish = record { status = status_of ran.0; finished_at = now } in
      (ran.0, (stores.finish_run run_id finish ran.1).1))
