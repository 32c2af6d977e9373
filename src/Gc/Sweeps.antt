-- ===== src/Gc/Sweeps.antt =====
-- The sweeps of a run of core/gc/src: after the live hashes are marked, they keep every object that may
-- not go.
use nodalmerge.Base.{
  ℕ, zero, suc, ◌-◌, ◌<◌, ◌≡◌, refl, sym, subst, Bool, true, false, ◌||◌, Bytes, List, [], ◌∷◌, inl,
  inr, Bool-cases, All, retain, ltb,
}
use nodalmerge.Gc.{
  AssetRecord, GcRunMode, GcRunDelta, done, Stores, give, soft_loop, soft_sweep, hard_loop,
  hard_sweep, sweeps, is_some, is_pending,
}
use nodalmerge.Gc.Store.{
  World, gc_store, upsert_active_seen_batch, is_unmarked, is_expired, update_rows, to_pending,
  upserts,
}
use nodalmerge.Gc.Calls.{Ends, and_then-Ends, Ends-weaken}
use nodalmerge.Gc.Marked.{
  IsIn, has_hash, IsSafe, upserts-IsSafe, unmarked-IsSafe, expired-IsSafe, update-pending,
}
use nodalmerge.Gc.Kept.{
  Run, MayGo, Kept, execute-Ends, pinned-Ends, head-Ends, set_deleted-Ends, delete_object-Ends,
}

All-retain {ℓ κ μ} :
    {A : Type ℓ} (P : A → Type κ) (Q : A → Type μ) (f : A → Bool) (l : List A)
    → ((a : A) → P a → f a ≡ true → Q a)
    → All P l
    → All Q (retain f l)
unfolding retain
All-retain P Q f [] step h = tt
All-retain P Q f (a ∷ l) step h = elim (Bool-cases (f a)) [
  | inl hit ↦ rw hit (step a h.0 hit, All-retain P Q f l step h.1)
  | inr miss ↦ rw miss (All-retain P Q f l step h.1)
]

module _ (r : Run) (hashes : List Bytes) (known : r.db.live ≡ done hashes) (run_id : Bytes)
    (young : r.now - r.cfg.grace_window < r.now) where
  open r use {db, cfg, before, now}
  open db use {key_scheme}

  abbrev stores : Stores World
  stores = gc_store db

  abbrev Safe : AssetRecord → Type 0
  Safe = IsSafe before.assets run_id (now - cfg.grace_window) (λ x. has_hash x hashes)

  abbrev Old : AssetRecord → Type 0
  Old row =
      IsIn row before.assets
      × (has_hash row.hash hashes ≡ false)
      × (is_expired (now - cfg.grace_window) row ≡ true)

  abbrev Table : World → Type 0
  Table w = Kept r w × All Safe w.assets

  set_pending_delete-Ends :
      (hash : Bytes) (v : World)
      → Table v
      → has_hash hash hashes ≡ false
      → Ends (Kept r) (λ _ u. Table u) (stores.set_pending_delete hash now v)
  unfolding gc_store update_rows Kept
  set_pending_delete-Ends hash v table free =
      execute-Ends r (λ u. (tt, record u { assets = update_rows hash (to_pending now) u.assets }))
        (λ _ u. Table u) v table.0
        (λ kept. (
          kept,
          update-pending before.assets run_id (now - cfg.grace_window) (λ x. has_hash x hashes) now
              hash v.assets young free table.1,
        ))

  soft_loop-Ends :
      (candidates : List AssetRecord) (delta : GcRunDelta) (w : World)
      → Table w
      → All (λ r. has_hash r.hash hashes ≡ false) candidates
      → Ends (Kept r) (λ _ v. Table v) (soft_loop stores cfg now candidates delta w)
  unfolding soft_loop give Ends gc_store
  soft_loop-Ends [] delta w h free = h
  soft_loop-Ends (rec ∷ candidates) delta w h free =
      elim (Bool-cases (is_some rec.pending_delete_at || is_pending rec.state)) [
        | inl old ↦ rw old (soft_loop-Ends candidates delta w h free.1)
        | inr new ↦ rw new (
            and_then-Ends (Kept r) _ _ _ _ w (pinned-Ends r rec Table w h h.0) (λ pin v between.
              elim (Bool-cases pin) [
                | inl hit ↦ rw hit (soft_loop-Ends candidates _ v between.0 free.1)
                | inr miss ↦ rw miss (
                    and_then-Ends (Kept r) _ _ (λ _ u. Table u) _ v
                      (set_pending_delete-Ends rec.hash v between.0 free.0)
                      (λ _ u table. soft_loop-Ends candidates _ u table free.1))
              ]))
      ]

  hard_loop-Ends :
      (remaining : ℕ) (candidates : List AssetRecord) (delta : GcRunDelta) (w : World)
      → Kept r w
      → All Old candidates
      → Ends (Kept r) (λ _ v. Kept r v) (hard_loop stores cfg now remaining candidates delta w)
  unfolding hard_loop give Ends MayGo
  hard_loop-Ends remaining [] delta w h old = h
  hard_loop-Ends zero (rec ∷ candidates) delta w h old = h
  hard_loop-Ends (suc remaining) (rec ∷ candidates) delta w h old =
      and_then-Ends (Kept r) _ _ _ _ w (pinned-Ends r rec (Kept r) w h h) (λ pin v between.
        elim (Bool-cases pin) [
          | inl hit ↦ rw hit (hard_loop-Ends (suc remaining) candidates _ v between.0 old.1)
          | inr miss ↦
              let may : MayGo r rec.bucket rec.object_key = (
                rec,
                hashes,
                old.0.0,
                known,
                old.0.1,
                old.0.2,
                (between.1 miss).0,
                (between.1 miss).1,
                refl,
                refl,
              ) in
              rw miss (
                and_then-Ends (Kept r) _ _ (λ _ u. Kept r u) _ v
                  (head-Ends r cfg.require_head_before_delete rec v between.0)
                  (λ exists u k. elim (Bool-cases exists) [
                    | inl there ↦ rw there (
                        and_then-Ends (Kept r) _ _ (λ _ t. Kept r t) _ u
                          (delete_object-Ends r rec u k may)
                          (λ _ t kept. hard_loop-Ends remaining candidates _ t kept old.1))
                    | inr gone ↦ rw gone (
                        and_then-Ends (Kept r) _ _ (λ _ t. Kept r t) _ u
                          (set_deleted-Ends r rec.hash u k)
                          (λ _ t kept. hard_loop-Ends (suc remaining) candidates _ t kept old.1))
                  ]))
        ])

  soft_sweep-Ends :
      (delta : GcRunDelta) (w : World)
      → Table w
      → Ends (Kept r) (λ _ v. Table v) (soft_sweep stores cfg run_id now delta w)
  unfolding soft_sweep gc_store
  soft_sweep-Ends delta w h =
      and_then-Ends (Kept r) _ _
        (λ candidates v. Table v × All (λ r. has_hash r.hash hashes ≡ false) candidates) _ w
        (execute-Ends r (λ v. (retain (is_unmarked run_id) v.assets, v)) _ w h.0
          (λ kept. (
            (kept, h.1),
            All-retain Safe _ (is_unmarked run_id) w.assets
                (unmarked-IsSafe before.assets run_id (now - cfg.grace_window)
                  (λ x. has_hash x hashes))
                h.1,
          )))
        (λ candidates v m. soft_loop-Ends candidates delta v m.0 m.1)

  hard_sweep-Ends :
      (delta : GcRunDelta) (w : World)
      → Table w
      → Ends (Kept r) (λ _ v. Kept r v) (hard_sweep stores cfg now delta w)
  unfolding hard_sweep gc_store Ends
  hard_sweep-Ends delta w h = elim (Bool-cases (ltb now cfg.grace_window)) [
    | inl early ↦ rw early (h.0)
    | inr late ↦ rw late (
        and_then-Ends (Kept r) _ _ (λ candidates v. Kept r v × All Old candidates) _ w
          (execute-Ends r (λ v. (retain (is_expired (now - cfg.grace_window)) v.assets, v)) _ w h.0
            (λ kept. (
              kept,
              All-retain Safe Old (is_expired (now - cfg.grace_window)) w.assets
                  (expired-IsSafe before.assets run_id (now - cfg.grace_window)
                    (λ x. has_hash x hashes))
                  h.1,
            )))
          (λ candidates v m. hard_loop-Ends cfg.max_deletes_per_run candidates delta v m.0 m.1))
  ]

  pub sweeps-Ends :
      (mode : GcRunMode) (delta : GcRunDelta) (w : World)
      → Table w
      → Ends (Kept r) (λ _ v. Kept r v) (sweeps stores cfg mode run_id now delta w)
  unfolding sweeps give Ends
  sweeps-Ends GcRunMode.dry_run delta w h = h.0
  sweeps-Ends GcRunMode.mark_only delta w h = h.0
  sweeps-Ends GcRunMode.sweep_soft delta w h =
      Ends-weaken (Kept r) (λ _ v. Table v) _ (soft_sweep stores cfg run_id now delta w)
        (λ _ v table. table.0) (soft_sweep-Ends delta w h)
  sweeps-Ends GcRunMode.sweep_hard delta w h =
      and_then-Ends (Kept r) _ _ (λ _ v. Table v) _ w (soft_sweep-Ends delta w h)
        (λ swept v table. hard_sweep-Ends swept v table)

  marks-Ends :
      (l : List Bytes) (w : World)
      → Kept r w
      → All Safe (upserts key_scheme run_id now l w.assets)
      → Ends (Kept r) (λ _ v. Table v) (stores.upsert_active_seen_batch run_id l now w)
  unfolding gc_store upsert_active_seen_batch upserts Ends Kept
  marks-Ends [] w h safe = (h, safe)
  marks-Ends (hash ∷ l) w h safe =
      execute-Ends r
        (λ v. (tt, record v { assets = upserts key_scheme run_id now (hash ∷ l) v.assets }))
        (λ _ v. Table v) w h (λ kept. (kept, safe))

  pub mark-Ends :
      (w : World)
      → Kept r w
      → w.assets ≡ before.assets
      → Ends (Kept r) (λ _ v. Table v) (stores.upsert_active_seen_batch run_id hashes now w)
  mark-Ends w h e = marks-Ends hashes w h (
      subst (λ rows. All Safe (upserts key_scheme run_id now hashes rows)) (sym e)
        (upserts-IsSafe before.assets run_id (now - cfg.grace_window) key_scheme now hashes))
