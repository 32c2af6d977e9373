-- ===== src/Gc/Kept.antt =====
-- Which objects a run of core/gc/src may delete, and that its calls of server/server/src/gc_store.rs
-- keep the others.
use nodalmerge.Base.{
  ℕ, ◌+◌, ◌-◌, ◌≡◌, refl, sym, ap, subst, ◌∙◌, Bool, true, false, not, ◌&&◌, Bytes, List, inl, inr,
  arith, if◌then◌else◌, bytes_eq, Bool-cases, bytes_eq→eq,
}
use nodalmerge.Gc.{
  AssetRecord, GcCoordinatorConfig, GcResult, done, refused, Stores, give, pinned_check,
  delete_object,
}
use nodalmerge.Gc.Store.{Backend, World, execute, gc_store, is_expired, update_rows, to_deleted}
use nodalmerge.Gc.Calls.{Ends, and_then-Ends}
use nodalmerge.Gc.Marked.{IsIn, has_hash}

-- one run of the collector: the database, the configuration, the world before, and the time
pub record Run : Type 0 where
  pub db : Backend
  pub cfg : GcCoordinatorConfig
  pub before : World
  pub now : ℕ

module _ (r : Run) where
  open r use {db, cfg, before, now}
  open db use {key_scheme, new_run_id, live, pins, breaks}

  -- an object may go if a row says so that was there before the run: a tombstone that is older than
  -- the grace window, not live, and not pinned
  unfoldable pub MayGo : Bytes → Bytes → Type 0
  MayGo bucket key =
      (row : AssetRecord) × (hashes : List Bytes) × IsIn row before.assets
      × (live ≡ done hashes)
      × (has_hash row.hash hashes ≡ false)
      × (is_expired (now - cfg.grace_window) row ≡ true)
      × (row.is_admin_pinned ≡ false)
      × (pins row.hash ≡ done false)
      × (row.bucket ≡ bucket)
      × (row.object_key ≡ key)

  unfoldable pub Kept : World → Type 0
  Kept w = (b k : Bytes) → before.objects b k ≡ true → w.objects b k ≡ false → MayGo b k

  abbrev stores : Stores World
  stores = gc_store db

  pub execute-Ends :
      {A : Type 0} (statement : World → A × World) (After : A → World → Type 0) (w : World)
      → Kept w
      → (Kept (record w { calls = w.calls + 1 })
          → After
              (statement (record w { calls = w.calls + 1 })).0
              (statement (record w { calls = w.calls + 1 })).1)
      → Ends Kept After (execute db statement w)
  unfolding Ends execute Kept
  execute-Ends statement After w kept next = elim (Bool-cases (breaks w.calls)) [
    | inl broken ↦ rw broken kept
    | inr fine ↦ rw fine (next kept)
  ]

  -- whether a row is pinned changes nothing
  pub pinned-Ends :
      (rec : AssetRecord) (P : World → Type 0) (w : World)
      → P w
      → Kept w
      → Ends Kept
          (λ pin v.
            P v × (pin ≡ false → (rec.is_admin_pinned ≡ false) × (pins rec.hash ≡ done false)))
          (pinned_check stores cfg rec w)
  unfolding pinned_check gc_store give Ends
  pinned-Ends rec P w h kept = elim (Bool-cases rec.is_admin_pinned) [
    | inl admin ↦ rw admin (h, λ e. absurd (ground (arith, e)))
    | inr free ↦ rw free (answer (pins rec.hash) refl)
  ]
    where
      answer :
          (r : GcResult Bool)
          → pins rec.hash ≡ r
          → Ends Kept
              (λ pin v. P v × (pin ≡ false → (false ≡ false) × (pins rec.hash ≡ done false)))
              (r, w)
      answer (done pin) e = (h, λ f. (refl, e ∙ ap done f))
      answer (refused error) e = kept

  pub head-Ends :
      (asked : Bool) (rec : AssetRecord) (w : World)
      → Kept w
      → Ends Kept
          (λ _ u. Kept u)
          ((if asked then stores.head rec.bucket rec.object_key else give true) w)
  unfolding gc_store give Ends
  head-Ends true rec w h =
      execute-Ends (λ v. (v.objects rec.bucket rec.object_key, v)) (λ _ u. Kept u) w h
        (λ kept. kept)
  head-Ends false rec w h = h

  pub set_deleted-Ends :
      (hash : Bytes) (w : World)
      → Kept w
      → Ends Kept (λ _ u. Kept u) (stores.set_deleted hash now w)
  unfolding gc_store Kept
  set_deleted-Ends hash w h =
      execute-Ends (λ v. (tt, record v { assets = update_rows hash (to_deleted now) v.assets }))
        (λ _ u. Kept u) w h (λ kept. kept)

  without-Kept :
      (rec : AssetRecord) (w : World)
      → MayGo rec.bucket rec.object_key
      → Kept w
      → Kept (record w {
        objects = λ b k. w.objects b k && not (bytes_eq b rec.bucket && bytes_eq k rec.object_key);
      })
  unfolding Kept
  without-Kept rec w may h b k was gone =
      elim (Bool-cases (bytes_eq b rec.bucket && bytes_eq k rec.object_key)) [
        | inr other ↦ h b k was (ground arith)
        | inl own ↦
            subst (λ x. MayGo b x) (sym (bytes_eq→eq k rec.object_key (ground arith)))
              (subst (λ x. MayGo x rec.object_key) (sym (bytes_eq→eq b rec.bucket (ground arith)))
                may)
      ]

  pub delete_object-Ends :
      (rec : AssetRecord) (w : World)
      → Kept w
      → MayGo rec.bucket rec.object_key
      → Ends Kept (λ _ u. Kept u) (delete_object stores cfg now rec w)
  unfolding delete_object gc_store
  delete_object-Ends rec w h may =
      and_then-Ends Kept _ _ (λ _ u. Kept u) _ w
        (execute-Ends
          (λ v. (
            tt,
            record v {
              objects =
                  λ b k. v.objects b k && not (bytes_eq b rec.bucket && bytes_eq k rec.object_key);
            },
          ))
          (λ _ u. Kept u) w h (λ kept. without-Kept rec _ may kept))
        (λ _ u kept. set_deleted-Ends rec.hash u kept)
