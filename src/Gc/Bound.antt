-- ===== src/Gc/Bound.antt =====
-- How often a run of core/gc/src calls `delete`, whatever its stores do.
use nodalmerge.Base.{
  ℕ, zero, suc, ◌+◌, ◌-◌, ◌≤◌, ◌≡◌, refl, true, ◌||◌, Bytes, List, [], ◌∷◌, inl, inr, arith,
  if◌then◌else◌, Bool-cases, ltb,
}
use nodalmerge.Gc.{
  AssetRecord, GcRunMode, GcRunDelta, GcCoordinatorConfig, GcResult, done, refused, Stores, give,
  pinned_check, soft_loop, soft_sweep, delete_object, hard_loop, hard_sweep, sweeps, run_inner,
  run_once, is_some, is_pending,
}
use nodalmerge.Gc.Counting.{counting, Reports}
use nodalmerge.Gc.Calls.{Ends, and_then-Ends, Ends-both, Ends-weaken}

module _ {W : Type 0} (stores : Stores W) (cfg : GcCoordinatorConfig) (now : ℕ) where
  abbrev Few : ℕ × W → Type 0
  Few v = v.0 ≤ cfg.max_deletes_per_run

  -- the count that a call leaves
  abbrev At : {A : Type 0} → ℕ → A → ℕ × W → Type 0
  At n a v = v.0 ≡ n

  -- the deletes are reported, and are as few as allowed
  abbrev Counted : GcRunDelta → ℕ × W → Type 0
  Counted delta v = (delta.hard_deleted_count ≡ v.0) × (v.0 ≤ cfg.max_deletes_per_run)

  abbrev None : GcRunDelta → ℕ × W → Type 0
  None delta v = (delta.hard_deleted_count ≡ 0) × (v.0 ≡ 0)

  Ends-At :
      {A : Type 0} (n : ℕ) (r : GcResult A × W)
      → n ≤ cfg.max_deletes_per_run
      → Ends Few (At n) (r.0, (n, r.1))
  unfolding Ends
  Ends-At n (done a, w) h = refl
  Ends-At n (refused e, w) h = h

  pinned_check-At :
      (rec : AssetRecord) (v : ℕ × W)
      → v.0 ≤ cfg.max_deletes_per_run
      → Ends Few (At v.0) (pinned_check (counting stores) cfg rec v)
  unfolding pinned_check give Ends
  pinned_check-At rec v h = elim (Bool-cases rec.is_admin_pinned) [
    | inl pin ↦ rw pin refl
    | inr no_pin ↦ rw no_pin (Ends-At v.0 (stores.is_pinned rec.hash v.1) h)
  ]

  soft_loop-None :
      (candidates : List AssetRecord) (delta : GcRunDelta) (v : ℕ × W)
      → None delta v
      → Ends Few None (soft_loop (counting stores) cfg now candidates delta v)
  unfolding soft_loop give Ends
  soft_loop-None [] delta v h = h
  soft_loop-None (rec ∷ candidates) delta v h =
      elim (Bool-cases (is_some rec.pending_delete_at || is_pending rec.state)) [
        | inl old ↦ rw old (soft_loop-None candidates delta v h)
        | inr new ↦ rw new (
            and_then-Ends Few _ _ (At v.0) None v (pinned_check-At rec v (omega (arith, h.1)))
              (λ pin u same. elim (Bool-cases pin) [
                | inl hit ↦ rw hit (soft_loop-None candidates _ u (h.0, omega (arith, same, h.1)))
                | inr miss ↦ rw miss (
                    and_then-Ends Few _ _ (At u.0) None u
                      (Ends-At u.0 (stores.set_pending_delete rec.hash now u.1)
                        (omega (arith, same, h.1)))
                      (λ _ t as_well.
                        soft_loop-None candidates _ t (h.0, omega (arith, as_well, same, h.1))))
              ]))
      ]

  soft_sweep-None :
      (run_id : Bytes) (delta : GcRunDelta) (v : ℕ × W)
      → None delta v
      → Ends Few None (soft_sweep (counting stores) cfg run_id now delta v)
  unfolding soft_sweep
  soft_sweep-None run_id delta v h =
      and_then-Ends Few _ _ (At v.0) None v
        (Ends-At v.0 (stores.iter_unmarked_candidates run_id v.1) (omega (arith, h.1)))
        (λ candidates u same. soft_loop-None candidates delta u (h.0, omega (arith, same, h.1)))

  -- one object is deleted
  delete_object-At :
      (rec : AssetRecord) (v : ℕ × W)
      → suc v.0 ≤ cfg.max_deletes_per_run
      → Ends Few (At (suc v.0)) (delete_object (counting stores) cfg now rec v)
  unfolding delete_object
  delete_object-At rec v h =
      and_then-Ends Few _ _ (At (suc v.0)) (At (suc v.0)) v
        (Ends-At (suc v.0) (stores.delete rec.bucket rec.object_key v.1) h)
        (λ _ u one.
          rw (← one) (Ends-At u.0 (stores.set_deleted rec.hash now u.1) (omega (arith, one, h))))

  head-At :
      (rec : AssetRecord) (v : ℕ × W)
      → v.0 ≤ cfg.max_deletes_per_run
      → Ends Few (At v.0) (
          (if cfg.require_head_before_delete
              then (counting stores).head rec.bucket rec.object_key
              else give true)
            v)
  unfolding give Ends
  head-At rec v h = elim (Bool-cases cfg.require_head_before_delete) [
    | inl ask ↦ rw ask (Ends-At v.0 (stores.head rec.bucket rec.object_key v.1) h)
    | inr trust ↦ rw trust refl
  ]

  hard_loop-Counted :
      (remaining : ℕ) (candidates : List AssetRecord) (delta : GcRunDelta) (v : ℕ × W)
      → delta.hard_deleted_count ≡ v.0
      → v.0 + remaining ≤ cfg.max_deletes_per_run
      → Ends Few Counted (hard_loop (counting stores) cfg now remaining candidates delta v)
  unfolding hard_loop give Ends
  hard_loop-Counted remaining [] delta v e h = (e, omega (arith, h))
  hard_loop-Counted zero (rec ∷ candidates) delta v e h = (e, omega (arith, h))
  hard_loop-Counted (suc remaining) (rec ∷ candidates) delta v e h =
      and_then-Ends Few _ _ (At v.0) Counted v (pinned_check-At rec v (omega (arith, h)))
        (λ pin u same. elim (Bool-cases pin) [
          | inl hit ↦ rw hit (
              hard_loop-Counted (suc remaining) candidates _ u (omega (arith, e, same))
                (omega (arith, h, same)))
          | inr miss ↦ rw miss (
              and_then-Ends Few _ _ (At u.0) Counted u (head-At rec u (omega (arith, h, same)))
                (λ exists t still. elim (Bool-cases exists) [
                  | inl there ↦ rw there (
                      and_then-Ends Few _ _ (At (suc t.0)) Counted t
                        (delete_object-At rec t (omega (arith, h, same, still)))
                        (λ _ s one.
                          hard_loop-Counted remaining candidates _ s
                            (omega (arith, e, same, still, one))
                            (omega (arith, h, same, still, one))))
                  | inr gone ↦ rw gone (
                      and_then-Ends Few _ _ (At t.0) Counted t
                        (Ends-At t.0 (stores.set_deleted rec.hash now t.1)
                          (omega (arith, h, same, still)))
                        (λ _ s as_well.
                          hard_loop-Counted (suc remaining) candidates _ s
                            (omega (arith, e, same, still, as_well))
                            (omega (arith, h, same, still, as_well))))
                ]))
        ])

  hard_sweep-Counted :
      (delta : GcRunDelta) (v : ℕ × W)
      → None delta v
      → Ends Few Counted (hard_sweep (counting stores) cfg now delta v)
  unfolding hard_sweep Ends
  hard_sweep-Counted delta v h = elim (Bool-cases (ltb now cfg.grace_window)) [
    | inl early ↦ rw early (omega (arith, h.1))
    | inr late ↦ rw late (
        and_then-Ends Few _ _ (At v.0) Counted v
          (Ends-At v.0 (stores.iter_pending_older_than (now - cfg.grace_window) v.1)
            (omega (arith, h.1)))
          (λ candidates u same.
            hard_loop-Counted cfg.max_deletes_per_run candidates delta u
              (omega (arith, h.0, h.1, same)) (omega (arith, h.1, same))))
  ]

  None-Counted : (delta : GcRunDelta) (v : ℕ × W) → None delta v → Counted delta v
  None-Counted delta v h = (omega (arith, h.0, h.1), omega (arith, h.1))

  sweeps-Counted :
      (mode : GcRunMode) (run_id : Bytes) (delta : GcRunDelta) (v : ℕ × W)
      → None delta v
      → Ends Few Counted (sweeps (counting stores) cfg mode run_id now delta v)
  unfolding sweeps give Ends
  sweeps-Counted GcRunMode.dry_run run_id delta v h = None-Counted delta v h
  sweeps-Counted GcRunMode.mark_only run_id delta v h = None-Counted delta v h
  sweeps-Counted GcRunMode.sweep_soft run_id delta v h =
      Ends-weaken Few None Counted (soft_sweep (counting stores) cfg run_id now delta v)
        None-Counted (soft_sweep-None run_id delta v h)
  sweeps-Counted GcRunMode.sweep_hard run_id delta v h =
      and_then-Ends Few _ _ None Counted v (soft_sweep-None run_id delta v h)
        (λ swept u none. hard_sweep-Counted swept u none)

  run_inner-Counted :
      (run_id : Bytes) (mode : GcRunMode) (v : ℕ × W)
      → v.0 ≡ 0
      → Ends Few Counted (run_inner (counting stores) cfg run_id mode now v)
  unfolding run_inner give Ends
  run_inner-Counted run_id mode v h =
      and_then-Ends Few _ _ (At v.0) Counted v
        (Ends-At v.0 (stores.collect_live_hashes v.1) (omega (arith, h)))
        (λ live u same.
          and_then-Ends Few _ _ (At u.0) Counted u
            (Ends-At u.0 (stores.upsert_active_seen_batch run_id live now u.1)
              (omega (arith, h, same)))
            (λ _ t still.
              and_then-Ends Few _ _ Counted Counted t
                (sweeps-Counted mode run_id _ t (refl, omega (arith, h, same, still)))
                (λ delta s few.
                  and_then-Ends Few _ _ (At s.0) Counted s
                    (Ends-At s.0 (stores.apply_delta run_id delta s.1) few.1)
                    (λ _ r as_well.
                      (omega (arith, few.0, as_well), omega (arith, few.1, as_well))))))

  -- the end of the run is recorded, which deletes nothing
  finished :
      (r : GcResult GcRunDelta × (ℕ × W)) (w : W)
      → Ends Few Counted r
      → Ends Few Counted (r.0, (r.1.0, w))
  unfolding Ends
  finished (done delta, v) w h = h
  finished (refused e, v) w h = h

  reported : (r : GcResult GcRunDelta × (ℕ × W)) → Ends Few Counted r → Reports r.1.0 r
  unfolding Ends
  reported (done delta, v) h = h.0
  reported (refused e, v) h = tt

  -- Whatever the stores answer, and whether the run succeeds or fails, it calls `delete` no more often
  -- than the configuration allows, and a run that succeeds reports as many deleted objects as it has
  -- made calls of `delete`. The calls are counted by stores that wrap the given ones.
  pub run_once-AtMost :
      (mode : GcRunMode) (w : W)
      → ((run_once (counting stores) cfg mode now (0, w)).1.0 ≤ cfg.max_deletes_per_run)
        × Reports
            (run_once (counting stores) cfg mode now (0, w)).1.0
            (run_once (counting stores) cfg mode now (0, w))
  unfolding run_once
  run_once-AtMost mode w =
      let ended : Ends Few Counted (run_once (counting stores) cfg mode now (0, w)) =
        and_then-Ends Few ((counting stores).start_run mode now) _ (At 0) Counted (0, w)
          (Ends-At 0 (stores.start_run mode now w) (omega arith))
          (λ run_id v zero.
            finished (run_inner (counting stores) cfg run_id mode now v) _
              (run_inner-Counted run_id mode v zero)) in
      (
        Ends-both Few Counted (run_once (counting stores) cfg mode now (0, w)) (λ _ _ few. few.1)
            ended,
        reported (run_once (counting stores) cfg mode now (0, w)) ended,
      )
