-- ===== src/Gc/Marked.antt =====
-- The rows of server/server/src/gc_store.rs after the live hashes are marked, and as unmarked rows
-- become tombstones: a live row is marked and no tombstone, and an expired tombstone is a row that
-- was there before the run.
use nodalmerge.Base.{
  ℕ, ◌<◌, ◌≡◌, refl, ap, subst, ◌∙◌, Bool, true, false, ◌||◌, Bytes, List, [], ◌∷◌, ◌++◌, some, inl,
  inr, ◌⊎◌, arith, bytes_eq, Bool-cases, All, bytes_eq→eq, bytes_eq_refl, fun_ext,
}
use nodalmerge.Gc.{AssetRecord, is_pending}
use nodalmerge.Gc.Store.{
  update_rows, has_row, seen_again, first_seen, to_pending, is_unmarked, is_expired, upsert,
  upserts,
}

unfoldable pub IsIn : AssetRecord → List AssetRecord → Type 0
IsIn row [] = ⊥
IsIn row (r ∷ rows) = (row ≡ r) ⊎ IsIn row rows

unfoldable pub has_hash : Bytes → List Bytes → Bool
has_hash x [] = false
has_hash x (h ∷ hashes) = bytes_eq h x || has_hash x hashes

bytes_eq_swap : (s t : Bytes) → bytes_eq s t ≡ false → bytes_eq t s ≡ false
bytes_eq_swap s t h = elim (Bool-cases (bytes_eq t s)) [
  | inr e ↦ e
  | inl e ↦ absurd (ground (arith, ap (λ x. bytes_eq x t) (bytes_eq→eq t s e), bytes_eq_refl t))
]

is_expired-is_pending :
    (cutoff : ℕ) (row : AssetRecord) → is_expired cutoff row ≡ true → is_pending row.state ≡ true
unfolding is_expired
is_expired-is_pending cutoff row h = ground arith

or_false : (b : Bool) → (b || false) ≡ b
or_false b = ground arith

module _ (before : List AssetRecord) (run_id : Bytes) (cutoff : ℕ) where
  -- for the hashes that were marked
  unfoldable pub IsSafe : (Bytes → Bool) → AssetRecord → Type 0
  IsSafe marked row =
      (marked row.hash ≡ true
        → (row.last_marked_run_id ≡ some run_id) × (is_pending row.state ≡ false))
      × (is_expired cutoff row ≡ true → IsIn row before)

  seen_again-IsSafe :
      (marked : Bytes → Bool) (now : ℕ) (row : AssetRecord)
      → IsSafe marked (seen_again run_id now row)
  unfolding IsSafe seen_again is_expired is_pending
  seen_again-IsSafe marked now row = (λ h. (refl, refl), λ h. absurd (ground arith))

  more_marked :
      (marked : Bytes → Bool) (hash : Bytes) (row : AssetRecord)
      → bytes_eq row.hash hash ≡ false
      → bytes_eq hash row.hash ≡ false
      → IsSafe marked row
      → IsSafe (λ x. bytes_eq hash x || marked x) row
  unfolding IsSafe
  more_marked marked hash row other other' h = (λ k. h.0 (ground arith), h.1)

  update-seen :
      (marked : Bytes → Bool) (now : ℕ) (hash : Bytes) (rows : List AssetRecord)
      → All (IsSafe marked) rows
      → All
          (IsSafe (λ x. bytes_eq hash x || marked x))
          (update_rows hash (seen_again run_id now) rows)
  unfolding update_rows
  update-seen marked now hash [] h = tt
  update-seen marked now hash (row ∷ rows) h = elim (Bool-cases (bytes_eq row.hash hash)) [
    | inl own ↦ rw own (seen_again-IsSafe _ now row, update-seen marked now hash rows h.1)
    | inr other ↦ rw other (
      more_marked marked hash row other (bytes_eq_swap row.hash hash other) h.0,
      update-seen marked now hash rows h.1,
    )
  ]

  append-seen :
      (marked : Bytes → Bool) (now : ℕ) (address : Bytes × Bytes) (hash : Bytes)
      (rows : List AssetRecord)
      → has_row hash rows ≡ false
      → All (IsSafe marked) rows
      → All
          (IsSafe (λ x. bytes_eq hash x || marked x))
          (rows ++ first_seen address run_id hash now ∷ [])
  unfolding has_row first_seen IsSafe is_expired is_pending
  append-seen marked now address hash [] new h =
      ((λ k. (refl, refl), λ k. absurd (ground arith)), tt)
  append-seen marked now address hash (row ∷ rows) new h =
      let other : bytes_eq row.hash hash ≡ false = ground arith in
      (
        more_marked marked hash row other (bytes_eq_swap row.hash hash other) h.0,
        append-seen marked now address hash rows (ground arith) h.1,
      )

  before-IsSafe :
      (rows : List AssetRecord)
      → ((row : AssetRecord) → IsIn row rows → IsIn row before)
      → All (IsSafe (λ y. false)) rows
  unfolding IsSafe IsIn
  before-IsSafe [] within = tt
  before-IsSafe (row ∷ rows) within = (
    (λ h. absurd (ground arith), λ h. within row (inl refl)),
    before-IsSafe rows (λ r m. within r (inr m)),
  )

  unfoldable also : List Bytes → (Bytes → Bool) → Bytes → Bool
  also [] marked x = marked x
  also (h ∷ hashes) marked x = also hashes (λ y. bytes_eq h y || marked y) x

  also_has :
      (hashes : List Bytes) (marked : Bytes → Bool) (x : Bytes)
      → also hashes marked x ≡ (has_hash x hashes || marked x)
  unfolding also has_hash
  also_has [] marked x = refl
  also_has (h ∷ hashes) marked x = ground (arith, also_has hashes (λ y. bytes_eq h y || marked y) x)

  module _ (key_scheme : Bytes → Bytes × Bytes) where
    upserts-also :
        (now : ℕ) (hashes : List Bytes) (marked : Bytes → Bool) (rows : List AssetRecord)
        → All (IsSafe marked) rows
        → All (IsSafe (also hashes marked)) (upserts key_scheme run_id now hashes rows)
    unfolding upserts upsert also
    upserts-also now [] marked rows h = h
    upserts-also now (hash ∷ hashes) marked rows h = elim (Bool-cases (has_row hash rows)) [
      | inl known ↦ rw known (upserts-also now hashes _ _ (update-seen marked now hash rows h))
      | inr new ↦
          rw new
            (upserts-also now hashes _ _ (append-seen marked now (key_scheme hash) hash rows new h))
    ]

    -- all the live hashes are marked
    pub upserts-IsSafe :
        (now : ℕ) (hashes : List Bytes)
        → All (IsSafe (λ x. has_hash x hashes)) (upserts key_scheme run_id now hashes before)
    upserts-IsSafe now hashes =
        subst (λ marked. All (IsSafe marked) (upserts key_scheme run_id now hashes before))
          (fun_ext (λ x. also_has hashes (λ y. false) x ∙ or_false (has_hash x hashes)))
          (upserts-also now hashes (λ y. false) before (before-IsSafe before (λ row m. m)))

  -- a candidate for a tombstone is not marked
  pub unmarked-IsSafe :
      (marked : Bytes → Bool) (row : AssetRecord)
      → IsSafe marked row
      → is_unmarked run_id row ≡ true
      → marked row.hash ≡ false
  unfolding IsSafe is_unmarked
  unmarked-IsSafe marked row h u = elim (Bool-cases (marked row.hash)) [
    | inr e ↦ e
    | inl e ↦ absurd (ground (arith, (h.0 e).0, bytes_eq_refl run_id))
  ]

  to_pending-IsSafe :
      (marked : Bytes → Bool) (at : ℕ) (row : AssetRecord)
      → cutoff < at
      → marked row.hash ≡ false
      → IsSafe marked (to_pending at row)
  unfolding IsSafe to_pending is_expired is_pending
  to_pending-IsSafe marked at row young free =
      (λ h. absurd (ground arith), λ h. absurd (ground arith))

  -- a new tombstone is not old
  pub update-pending :
      (marked : Bytes → Bool) (at : ℕ) (hash : Bytes) (rows : List AssetRecord)
      → cutoff < at
      → marked hash ≡ false
      → All (IsSafe marked) rows
      → All (IsSafe marked) (update_rows hash (to_pending at) rows)
  unfolding update_rows
  update-pending marked at hash [] young free h = tt
  update-pending marked at hash (row ∷ rows) young free h =
      elim (Bool-cases (bytes_eq row.hash hash)) [
        | inl own ↦ rw own (
          to_pending-IsSafe marked at row young (ap marked (bytes_eq→eq row.hash hash own) ∙ free),
          update-pending marked at hash rows young free h.1,
        )
        | inr other ↦ rw other (h.0, update-pending marked at hash rows young free h.1)
      ]

  -- an expired tombstone was there before, and is not marked
  pub expired-IsSafe :
      (marked : Bytes → Bool) (row : AssetRecord)
      → IsSafe marked row
      → is_expired cutoff row ≡ true
      → IsIn row before × (marked row.hash ≡ false) × (is_expired cutoff row ≡ true)
  unfolding IsSafe
  expired-IsSafe marked row h e = (h.1 e, free, e)
    where
      pending : is_expired cutoff row ≡ true → is_pending row.state ≡ true
      pending k = is_expired-is_pending cutoff row k

      free : marked row.hash ≡ false
      free = elim (Bool-cases (marked row.hash)) [
        | inr no_mark ↦ no_mark
        | inl mark ↦ absurd (ground (arith, (h.0 mark).1, pending e))
      ]
