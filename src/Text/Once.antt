-- ===== src/Text/Once.antt =====
-- Every id of core/crdt/src/text.rs stands once, among the items or among the inserts that wait.
use nodalmerge.Base.{
  ℕ, zero, suc, ◌+◌, ◌≤◌, ◌≡◌, refl, ap, ◌∙◌, false, not, ◌||◌, List, [], ◌∷◌, ◌++◌, Option, none,
  some, inl, inr, arith, if◌then◌else◌, Bool-cases, retain,
}
use nodalmerge.Base.Prio.{eqp, eqp→eq}
use nodalmerge.Op.{OpId}
use nodalmerge.Text.{
  Item, Orphan, TextProjection, insert_at, has_item, is_orphan, integration_loc, integrate,
  integrate_children, waits_for, drain_loop, drain_orphans_of, apply_insert, mark_deleted,
  is_deleted, delete_known, apply_delete,
}

-- how often an id stands among the items, and among the inserts that wait
unfoldable pub count_item : OpId → List Item → ℕ
count_item j [] = 0
count_item j (x ∷ items) = (if eqp x.id j then 1 else 0) + count_item j items

unfoldable pub count_orphan : OpId → List Orphan → ℕ
count_orphan j [] = 0
count_orphan j (o ∷ orphans) = (if eqp o.child j then 1 else 0) + count_orphan j orphans

unfoldable pub count_id : OpId → TextProjection → ℕ
count_id j s = count_item j s.items + count_orphan j s.orphans

-- no id stands twice
unfoldable pub IsOnce : TextProjection → Type 0
IsOnce s = (j : OpId) → count_id j s ≤ 1

count_item-insert_at :
    (j : OpId) (loc : ℕ) (a : Item) (items : List Item)
    → count_item j (insert_at loc a items) ≡ (if eqp a.id j then 1 else 0) + count_item j items
unfolding count_item insert_at
count_item-insert_at j zero a items = refl
count_item-insert_at j (suc loc) a [] = refl
count_item-insert_at j (suc loc) a (x ∷ items) = ground (arith, count_item-insert_at j loc a items)

count_id-integrate :
    (j id : OpId) (parent : Option OpId) (ch : ℕ) (s : TextProjection)
    → count_id j (integrate id parent ch s) ≡ (if eqp id j then 1 else 0) + count_id j s
unfolding count_id integrate
count_id-integrate j id parent ch s = omega (
  arith,
  count_item-insert_at j (integration_loc id parent s.items)
      (record { id = id; ch = ch; deleted = s.pending_deletes id }) s.items,
)

count_id-integrate_children :
    (j parent : OpId) (children : List Orphan) (s : TextProjection)
    → count_id j (integrate_children parent children s) ≡ count_orphan j children + count_id j s
unfolding integrate_children count_orphan
count_id-integrate_children j parent [] s = omega arith
count_id-integrate_children j parent (o ∷ children) s = omega (
  arith,
  count_id-integrate_children j parent children (integrate o.child (some parent) o.ch s),
  count_id-integrate j o.child (some parent) o.ch s,
)

count_orphan-retain :
    (j parent : OpId) (orphans : List Orphan)
    → count_orphan j (retain (waits_for parent) orphans)
        + count_orphan j (retain (λ o. not (waits_for parent o)) orphans)
      ≡ count_orphan j orphans
unfolding count_orphan retain
count_orphan-retain j parent [] = refl
count_orphan-retain j parent (o ∷ orphans) = ground (arith, count_orphan-retain j parent orphans)

-- a drain only moves inserts that wait among the items
count_id-drain_loop :
    (j : OpId) (rounds : ℕ) (stack : List OpId) (s : TextProjection)
    → count_id j (drain_loop rounds stack s) ≡ count_id j s
unfolding drain_loop count_id
count_id-drain_loop j zero stack s = refl
count_id-drain_loop j (suc rounds) [] s = refl
count_id-drain_loop j (suc rounds) (parent ∷ stack) s =
    count_id-drain_loop j rounds _ _ ∙ count_id-integrate_children j parent _ _ ∙ moved
  where
    moved :
        count_orphan j (retain (waits_for parent) s.orphans)
          + count_id j (record s { orphans = retain (λ o. not (waits_for parent o)) s.orphans })
        ≡ count_id j s
    moved = omega (arith, count_orphan-retain j parent s.orphans)

count_item-missing :
    (j : OpId) (items : List Item) → has_item j items ≡ false → count_item j items ≡ 0
unfolding count_item has_item
count_item-missing j [] h = refl
count_item-missing j (x ∷ items) h = ground (arith, count_item-missing j items)

count_orphan-missing :
    (j : OpId) (orphans : List Orphan) → is_orphan j orphans ≡ false → count_orphan j orphans ≡ 0
unfolding count_orphan is_orphan
count_orphan-missing j [] h = refl
count_orphan-missing j (o ∷ orphans) h = ground (arith, count_orphan-missing j orphans)

count_orphan-append :
    (j : OpId) (orphans : List Orphan) (o : Orphan)
    → count_orphan j (orphans ++ o ∷ []) ≡ (if eqp o.child j then 1 else 0) + count_orphan j orphans
unfolding count_orphan
count_orphan-append j [] o = refl
count_orphan-append j (p ∷ orphans) o = ground (arith, count_orphan-append j orphans o)

count_item-mark_deleted :
    (j target : OpId) (items : List Item)
    → count_item j (mark_deleted target items) ≡ count_item j items
unfolding count_item mark_deleted
count_item-mark_deleted j target [] = refl
count_item-mark_deleted j target (x ∷ items) =
    ground (arith, count_item-mark_deleted j target items)

new_once :
    (j id : OpId) (n : ℕ) (s : TextProjection)
    → (has_item id s.items || is_orphan id s.orphans) ≡ false
    → count_id j s ≤ 1
    → n ≡ (if eqp id j then 1 else 0) + count_id j s
    → n ≤ 1
unfolding count_id
new_once j id n s new h e = elim (Bool-cases (eqp id j)) [
  | inl same ↦
      let at = eqp→eq id j same in
      let no_item : count_item id s.items ≡ 0 = count_item-missing id s.items (ground arith) in
      let no_orphan : count_orphan id s.orphans ≡ 0 =
        count_orphan-missing id s.orphans (ground arith) in
      ground (arith, ap (λ k. count_item k s.items) at, ap (λ k. count_orphan k s.orphans) at)
  | inr other ↦ ground arith
]

count_id-waits :
    (j parent id : OpId) (ch : ℕ) (s : TextProjection)
    → count_id j
        (record s { orphans = s.orphans ++ record { parent = parent; child = id; ch = ch } ∷ [] })
      ≡ (if eqp id j then 1 else 0) + count_id j s
unfolding count_id
count_id-waits j parent id ch s =
    omega (arith, count_orphan-append j s.orphans (record { parent = parent; child = id; ch = ch }))

pub apply_insert-IsOnce :
    (id : OpId) (after : Option OpId) (ch : ℕ) (s : TextProjection)
    → IsOnce s
    → IsOnce (apply_insert id after ch s)
unfolding IsOnce apply_insert drain_orphans_of
apply_insert-IsOnce id none ch s h j =
    elim (Bool-cases (has_item id s.items || is_orphan id s.orphans)) [
      | inl known ↦ rw known (h j)
      | inr new ↦ rw new (
          new_once j id _ s new (h j)
            (count_id-drain_loop j _ _ _ ∙ count_id-integrate j id none ch s))
    ]
apply_insert-IsOnce id (some p) ch s h j =
    elim (Bool-cases (has_item id s.items || is_orphan id s.orphans)) [
      | inl known ↦ rw known (h j)
      | inr new ↦ elim (Bool-cases (has_item p s.items)) [
        | inl there ↦
            rw (new, there)
              (new_once j id _ s new (h j)
                (count_id-drain_loop j _ _ _ ∙ count_id-integrate j id (some p) ch s))
        | inr waits ↦ rw (new, waits) (new_once j id _ s new (h j) (count_id-waits j p id ch s))
      ]
    ]

pub delete_known-IsOnce : (id : OpId) (s : TextProjection) → IsOnce s → IsOnce (delete_known id s)
unfolding IsOnce delete_known count_id
delete_known-IsOnce id s h j = elim (Bool-cases (has_item id s.items)) [
  | inr missing ↦ rw missing (h j)
  | inl known ↦ elim (Bool-cases (is_deleted id s.items)) [
    | inl gone ↦ rw (known, gone) (h j)
    | inr there ↦ rw (known, there) (rw (count_item-mark_deleted j id s.items) (h j))
  ]
]

pub apply_delete-IsOnce :
    (target : OpId) (s : TextProjection) → IsOnce s → IsOnce (apply_delete target s)
unfolding apply_delete IsOnce count_id
apply_delete-IsOnce target s h = elim (Bool-cases (has_item target s.items)) [
  | inl known ↦ rw known (delete_known-IsOnce target s h)
  | inr missing ↦ rw missing (λ j. h j)
]
