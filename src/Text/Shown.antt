-- ===== src/Text/Shown.antt =====
-- The visible string and the counters of core/crdt/src/text.rs are those of the items, whatever is
-- applied.
use native.Mathlib.Nat.{zero-add}
use nodalmerge.Base.{
  ℕ, zero, suc, ◌+◌, ◌≡◌, refl, sym, ap, ◌∙◌, Bool, true, false, ◌||◌, List, [], ◌∷◌, Option, none,
  some, inl, inr, arith, if◌then◌else◌, Bool-cases, length,
}
use nodalmerge.Base.Prio.{eqp}
use nodalmerge.Op.{OpId}
use nodalmerge.Text.{
  Item, Orphan, TextProjection, insert_at, remove_at, has_item, is_orphan, loc_of_id,
  integration_loc, visible_prefix_at, integrate, integrate_children, drain_loop, drain_orphans_of,
  apply_insert, mark_deleted, is_deleted, delete_known, apply_delete, ProjectionUpdateOp,
  apply_update, apply_updates_coalesced,
}

-- the characters of the items without a tombstone, in order
unfoldable pub shown : List Item → List ℕ
shown [] = []
shown (x ∷ items) = if x.deleted then shown items else x.ch ∷ shown items

-- the string and the counters agree with the items
unfoldable pub IsShown : TextProjection → Type 0
IsShown s =
    (s.visible_string ≡ shown s.items)
    × (s.visible_chars_total ≡ length (shown s.items))
    × (s.total_items ≡ length s.items)
    × (s.tombstone_count + s.visible_chars_total ≡ s.total_items)

one_more : (n : ℕ) → 1 + n ≡ suc n
one_more n = omega arith

-- the pending deletes and the orphans do not count
irrelevant :
    (pending : OpId → Bool) (orphans : List Orphan) (s : TextProjection)
    → IsShown s
    → IsShown (record s { pending_deletes = pending; orphans = orphans })
unfolding IsShown
irrelevant pending orphans s h = h

shown-insert_at_visible :
    (loc : ℕ) (id : OpId) (ch : ℕ) (items : List Item)
    → insert_at (visible_prefix_at loc items) ch (shown items)
      ≡ shown (insert_at loc (record { id = id; ch = ch; deleted = false }) items)
unfolding insert_at visible_prefix_at shown
shown-insert_at_visible zero id ch items = refl
shown-insert_at_visible (suc loc) id ch [] = refl
shown-insert_at_visible (suc loc) id ch (x ∷ items) = elim (Bool-cases x.deleted) [
  | inl gone ↦
      rw (gone, zero-add (visible_prefix_at loc items)) (shown-insert_at_visible loc id ch items)
  | inr there ↦
      rw (there, one_more (visible_prefix_at loc items))
        (ap (λ l. x.ch ∷ l) (shown-insert_at_visible loc id ch items))
]

shown-insert_at_deleted :
    (loc : ℕ) (id : OpId) (ch : ℕ) (items : List Item)
    → shown items ≡ shown (insert_at loc (record { id = id; ch = ch; deleted = true }) items)
unfolding insert_at shown
shown-insert_at_deleted zero id ch items = refl
shown-insert_at_deleted (suc loc) id ch [] = refl
shown-insert_at_deleted (suc loc) id ch (x ∷ items) =
    rw (sym (shown-insert_at_deleted loc id ch items)) refl

length-insert_at {ℓ} :
    {A : Type ℓ} (n : ℕ) (a : A) (l : List A) → length (insert_at n a l) ≡ suc (length l)
unfolding insert_at
length-insert_at zero a l = refl
length-insert_at (suc n) a [] = refl
length-insert_at (suc n) a (b ∷ l) = ap suc (length-insert_at n a l)

integrate-IsShown :
    (id : OpId) (parent : Option OpId) (ch : ℕ) (s : TextProjection)
    → IsShown s
    → IsShown (integrate id parent ch s)
unfolding IsShown integrate
integrate-IsShown id parent ch s h =
    let loc = integration_loc id parent s.items in
    elim (Bool-cases (s.pending_deletes id)) [
      | inl gone ↦
          let e = shown-insert_at_deleted loc id ch s.items in
          rw gone
            (h.0 ∙ e, h.1 ∙ ap length e, omega (arith, h.2, long loc true), omega (arith, h.3))
      | inr there ↦
          let e = shown-insert_at_visible loc id ch s.items in
          rw there (
            rw (h.0) e,
            omega (
              arith,
              h.1,
              ap length e,
              length-insert_at (visible_prefix_at loc s.items) ch (shown s.items),
            ),
            omega (arith, h.2, long loc false),
            omega (arith, h.3),
          )
    ]
  where
    long :
        (loc : ℕ) (flag : Bool)
        → length (insert_at loc (record { id = id; ch = ch; deleted = flag }) s.items)
          ≡ suc (length s.items)
    long loc flag = length-insert_at loc _ s.items

-- the visible item of an id leaves the string
remove_at-shown :
    (id : OpId) (items : List Item)
    → has_item id items ≡ true
    → is_deleted id items ≡ false
    → remove_at (visible_prefix_at (loc_of_id id items) items) (shown items)
      ≡ shown (mark_deleted id items)
unfolding remove_at visible_prefix_at loc_of_id shown mark_deleted has_item is_deleted
remove_at-shown id [] known new = absurd (ground arith)
remove_at-shown id (x ∷ items) known new = elim (Bool-cases (eqp x.id id)) [
  | inl here ↦ let live : x.deleted ≡ false = ground arith in rw (here, live) refl
  | inr other ↦ elim (Bool-cases x.deleted) [
    | inl gone ↦
        rw (other, gone, zero-add (visible_prefix_at (loc_of_id id items) items))
          (remove_at-shown id items (ground arith) (ground arith))
    | inr there ↦
        rw (other, there, one_more (visible_prefix_at (loc_of_id id items) items))
          (ap (λ l. x.ch ∷ l) (remove_at-shown id items (ground arith) (ground arith)))
  ]
]

length-shown-mark_deleted :
    (id : OpId) (items : List Item)
    → has_item id items ≡ true
    → is_deleted id items ≡ false
    → length (shown items) ≡ suc (length (shown (mark_deleted id items)))
unfolding shown mark_deleted has_item is_deleted
length-shown-mark_deleted id [] known new = absurd (ground arith)
length-shown-mark_deleted id (x ∷ items) known new =
    ground (arith, length-shown-mark_deleted id items)

length-mark_deleted :
    (id : OpId) (items : List Item) → length (mark_deleted id items) ≡ length items
unfolding mark_deleted
length-mark_deleted id [] = refl
length-mark_deleted id (x ∷ items) = ground (arith, length-mark_deleted id items)

pub delete_known-IsShown :
    (id : OpId) (s : TextProjection) → IsShown s → IsShown (delete_known id s)
unfolding IsShown delete_known
delete_known-IsShown id s h = elim (Bool-cases (has_item id s.items)) [
  | inr missing ↦ rw missing h
  | inl known ↦ elim (Bool-cases (is_deleted id s.items)) [
    | inl gone ↦ rw (known, gone) h
    | inr there ↦
        let shorter = length-shown-mark_deleted id s.items known there in
        rw (known, there)
          (
            rw (h.0) (remove_at-shown id s.items known there),
            omega (arith, h.1, shorter),
            h.2 ∙ sym (length-mark_deleted id s.items),
            omega (arith, h.1, h.3, shorter),
          )
  ]
]

integrate_children-IsShown :
    (parent : OpId) (children : List Orphan) (s : TextProjection)
    → IsShown s
    → IsShown (integrate_children parent children s)
unfolding integrate_children
integrate_children-IsShown parent [] s h = h
integrate_children-IsShown parent (o ∷ children) s h =
    integrate_children-IsShown parent children _ (integrate-IsShown o.child (some parent) o.ch s h)

drain_loop-IsShown :
    (rounds : ℕ) (stack : List OpId) (s : TextProjection)
    → IsShown s
    → IsShown (drain_loop rounds stack s)
unfolding drain_loop
drain_loop-IsShown zero stack s h = h
drain_loop-IsShown (suc rounds) [] s h = h
drain_loop-IsShown (suc rounds) (parent ∷ stack) s h =
    drain_loop-IsShown rounds _ _ (integrate_children-IsShown parent _ _ (irrelevant _ _ s h))

pub apply_insert-IsShown :
    (id : OpId) (after : Option OpId) (ch : ℕ) (s : TextProjection)
    → IsShown s
    → IsShown (apply_insert id after ch s)
unfolding apply_insert drain_orphans_of
apply_insert-IsShown id none ch s h =
    elim (Bool-cases (has_item id s.items || is_orphan id s.orphans)) [
      | inl known ↦ rw known h
      | inr new ↦ rw new (drain_loop-IsShown _ _ _ (integrate-IsShown id none ch s h))
    ]
apply_insert-IsShown id (some p) ch s h =
    elim (Bool-cases (has_item id s.items || is_orphan id s.orphans)) [
      | inl known ↦ rw known h
      | inr new ↦ elim (Bool-cases (has_item p s.items)) [
        | inl there ↦
            rw (new, there) (drain_loop-IsShown _ _ _ (integrate-IsShown id (some p) ch s h))
        | inr waits ↦ rw (new, waits) (irrelevant _ _ s h)
      ]
    ]

pub apply_delete-IsShown :
    (target : OpId) (s : TextProjection) → IsShown s → IsShown (apply_delete target s)
unfolding apply_delete
apply_delete-IsShown target s h = elim (Bool-cases (has_item target s.items)) [
  | inl known ↦ rw known (delete_known-IsShown target s h)
  | inr missing ↦ rw missing (irrelevant _ _ s h)
]

apply_update-IsShown :
    (update : ProjectionUpdateOp) (s : TextProjection) → IsShown s → IsShown (apply_update update s)
unfolding apply_update
apply_update-IsShown (ProjectionUpdateOp.insert id after ch) s h =
    apply_insert-IsShown id after ch s h
apply_update-IsShown (ProjectionUpdateOp.delete target) s h = apply_delete-IsShown target s h

-- Whatever updates are applied, in whatever order, the visible string stays the characters of the
-- items without a tombstone, and the counters stay the numbers of these, of all and of the others.
pub apply_updates_coalesced-IsShown :
    (updates : List ProjectionUpdateOp) (s : TextProjection)
    → IsShown s
    → IsShown (apply_updates_coalesced updates s)
unfolding apply_updates_coalesced
apply_updates_coalesced-IsShown [] s h = h
apply_updates_coalesced-IsShown (update ∷ updates) s h =
    apply_updates_coalesced-IsShown updates _ (apply_update-IsShown update s h)
