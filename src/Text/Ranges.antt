-- ===== src/Text/Ranges.antt =====
-- Ranges of core/crdt/src/text.rs: what a delete of a range removes from the string, and the anchors
-- that are stored for an offset.
use Prim.Native.Nat.{min}
use native.Mathlib.Nat.{zero-add}
use nodalmerge.Base.{
  ℕ, zero, suc, ◌+◌, ◌-◌, ◌≤◌, ◌≡◌, refl, sym, ap, ◌∙◌, true, false, List, [], ◌∷◌, none, some, inl,
  inr, arith, Option-cases, Bool-cases, length, ◌==◌, leb,
}
use nodalmerge.Base.Prio.{eqp, eqp_refl}
use nodalmerge.Op.{OpId, TextRangeAnchor}
use nodalmerge.Text.{
  Item, TextProjection, remove_at, has_item, loc_of_id, visible_prefix_at, is_deleted, delete_known,
}
use nodalmerge.Text.Nodes.{
  visible_item_at, id_at_visible_offset, visible_offset_of_id, resolve_anchor_index,
  anchor_for_offset, delete_at, apply_range_delete,
}
use nodalmerge.Text.Shown.{IsShown, shown}
use nodalmerge.Text.Once.{IsOnce, count_id, count_item}
use nodalmerge.Text.Kept.{IsText, known-IsText}

-- a list without `count` elements from `start` on, or those that there are
unfoldable pub cut {ℓ} : {A : Type ℓ} → ℕ → ℕ → List A → List A
cut start count [] = []
cut zero zero (x ∷ l) = x ∷ l
cut zero (suc count) (x ∷ l) = cut zero count l
cut (suc start) count (x ∷ l) = x ∷ cut start count l

cut-remove_at {ℓ} :
    {A : Type ℓ} (start count : ℕ) (l : List A)
    → cut start (suc count) l ≡ cut start count (remove_at start l)
unfolding cut remove_at
cut-remove_at start count [] = refl
cut-remove_at zero count (x ∷ l) = refl
cut-remove_at (suc start) count (x ∷ l) = ap (λ t. x ∷ t) (cut-remove_at start count l)

-- beyond the end there is nothing
cut-beyond {ℓ} :
    {A : Type ℓ} (start count : ℕ) (l : List A) → length l ≤ start → cut start count l ≡ l
unfolding cut
cut-beyond start count [] h = refl
cut-beyond zero count (x ∷ l) h = absurd (omega (arith, h))
cut-beyond (suc start) count (x ∷ l) h =
    ap (λ t. x ∷ t) (cut-beyond start count l (omega (arith, h)))

cut_zero {ℓ} : {A : Type ℓ} (start : ℕ) (l : List A) → cut start 0 l ≡ l
unfolding cut
cut_zero start [] = refl
cut_zero zero (x ∷ l) = refl
cut_zero (suc start) (x ∷ l) = ap (λ t. x ∷ t) (cut_zero start l)

cut_all {ℓ} :
    {A : Type ℓ} (start m n : ℕ) (l : List A)
    → length l ≤ start + m
    → length l ≤ start + n
    → cut start m l ≡ cut start n l
unfolding cut
cut_all start m n [] h k = refl
cut_all zero zero n (x ∷ l) h k = absurd (omega (arith, h))
cut_all zero (suc m) zero (x ∷ l) h k = absurd (omega (arith, k))
cut_all zero (suc m) (suc n) (x ∷ l) h k = cut_all zero m n l (omega (arith, h)) (omega (arith, k))
cut_all (suc start) m n (x ∷ l) h k =
    ap (λ t. x ∷ t) (cut_all start m n l (omega (arith, h)) (omega (arith, k)))

cut-min {ℓ} :
    {A : Type ℓ} (start n : ℕ) (l : List A) → cut start (min n (length l - start)) l ≡ cut start n l
cut-min start n l = elim (Bool-cases (leb n (length l - start))) [
  | inl fits ↦ ap (λ m. cut start m l) (few (ground arith))
  | inr beyond ↦ cut_all start _ n l (omega (arith, many (ground arith))) (ground arith)
]
  where
    few : n ≤ length l - start → min n (length l - start) ≡ n
    few h = omega arith

    many : length l - start ≤ n → min n (length l - start) ≡ length l - start
    many h = omega arith

-- an item that is shown
shown_once :
    (offset : ℕ) (x : Item) (items : List Item)
    → visible_item_at offset items ≡ some x
    → 1 ≤ count_item x.id items
unfolding visible_item_at count_item
shown_once offset x [] h = absurd (ground arith)
shown_once zero x (y ∷ items) h = ground (arith, shown_once zero x items, eqp_refl x.id)
shown_once (suc offset) x (y ∷ items) h =
    ground (arith, shown_once offset x items, shown_once (suc offset) x items, eqp_refl x.id)

-- where an item that is shown stands
unfoldable StandsAt : ℕ → OpId → List Item → Type 0
StandsAt offset id items =
    (has_item id items ≡ true)
    × (is_deleted id items ≡ false)
    × (visible_prefix_at (loc_of_id id items) items ≡ offset)

visible_item_at-StandsAt :
    (offset : ℕ) (x : Item) (items : List Item)
    → visible_item_at offset items ≡ some x
    → count_item x.id items ≤ 1
    → StandsAt offset x.id items
unfolding StandsAt visible_item_at count_item has_item is_deleted visible_prefix_at loc_of_id
visible_item_at-StandsAt offset x [] h once = absurd (ground arith)
visible_item_at-StandsAt zero x (y ∷ items) h once = elim (Bool-cases y.deleted) [
  | inr there ↦
      let same : y ≡ x = ground arith in
      let own : eqp y.id x.id ≡ true = ap (λ z. eqp y.id z.id) (sym same) ∙ eqp_refl y.id in
      rw own (refl, there, refl)
  | inl gone ↦
      let h' : visible_item_at zero items ≡ some x = ground arith in
      let other : eqp y.id x.id ≡ false = ground (arith, shown_once zero x items h') in
      let rest = visible_item_at-StandsAt zero x items h' (ground arith) in
      rw (other, gone, zero-add (visible_prefix_at (loc_of_id x.id items) items)) rest
]
visible_item_at-StandsAt (suc offset) x (y ∷ items) h once = elim (Bool-cases y.deleted) [
  | inr there ↦
      let h' : visible_item_at offset items ≡ some x = ground arith in
      let other : eqp y.id x.id ≡ false = ground (arith, shown_once offset x items h') in
      let rest = visible_item_at-StandsAt offset x items h' (ground arith) in
      rw (other, there) (rest.0, rest.1, omega (arith, rest.2))
  | inl gone ↦
      let h' : visible_item_at (suc offset) items ≡ some x = ground arith in
      let other : eqp y.id x.id ≡ false = ground (arith, shown_once (suc offset) x items h') in
      let rest = visible_item_at-StandsAt (suc offset) x items h' (ground arith) in
      rw (other, gone, zero-add (visible_prefix_at (loc_of_id x.id items) items)) rest
]

-- at an offset below the length an item is shown
visible_item_at-none :
    (offset : ℕ) (items : List Item)
    → visible_item_at offset items ≡ none
    → length (shown items) ≤ offset
unfolding visible_item_at shown
visible_item_at-none offset [] h = omega arith
visible_item_at-none zero (y ∷ items) h = ground (arith, visible_item_at-none zero items)
visible_item_at-none (suc offset) (y ∷ items) h =
    ground (arith, visible_item_at-none offset items, visible_item_at-none (suc offset) items)

-- the delete of a shown item takes its character out of the string
delete_known-shown :
    (offset : ℕ) (x : Item) (s : TextProjection)
    → IsText s
    → visible_item_at offset s.items ≡ some x
    → (delete_known x.id s).visible_string ≡ remove_at offset s.visible_string
unfolding IsText IsOnce count_id delete_known StandsAt
delete_known-shown offset x s h e = let at = stands in rw (at.0, at.1, at.2) refl
  where
    stands : StandsAt offset x.id s.items
    stands = visible_item_at-StandsAt offset x s.items e (omega (arith, h.1 x.id))

delete_at-some :
    (count start : ℕ) (x : Item) (s : TextProjection)
    → visible_item_at start s.items ≡ some x
    → delete_at (suc count) start s ≡ delete_at count start (delete_known x.id s)
unfolding delete_at
delete_at-some count start x s e =
    ap (λ o. elim o [ none ↦ s | some y ↦ delete_at count start (delete_known y.id s) ]) e

delete_at-none :
    (count start : ℕ) (s : TextProjection)
    → visible_item_at start s.items ≡ none
    → delete_at (suc count) start s ≡ s
unfolding delete_at
delete_at-none count start s e =
    ap (λ o. elim o [ none ↦ s | some y ↦ delete_at count start (delete_known y.id s) ]) e

delete_at-cut :
    (count start : ℕ) (s : TextProjection)
    → IsText s
    → (delete_at count start s).visible_string ≡ cut start count s.visible_string
unfolding IsText IsShown delete_at
delete_at-cut zero start s h = sym (cut_zero start s.visible_string)
delete_at-cut (suc count) start s h = elim (Option-cases (visible_item_at start s.items)) [
  | inr w ↦
      ap (λ t. t.visible_string) (delete_at-some count start w.0 s w.1)
      ∙ delete_at-cut count start (delete_known w.0.id s) (known-IsText w.0.id s h)
      ∙ ap (cut start count) (delete_known-shown start w.0 s h w.1)
      ∙ sym (cut-remove_at start count s.visible_string)
  | inl e ↦
      ap (λ t. t.visible_string) (delete_at-none count start s e)
      ∙ sym (
          cut-beyond start (suc count) s.visible_string
            (omega (arith, ap length h.0.0, visible_item_at-none start s.items e)))
]

-- The delete of a range takes its characters out of the string, from the place of its anchor on,
-- as many as there are, and changes nothing else in it, where the string is that of the items and
-- no id stands twice.
pub apply_range_delete-cut :
    (anchor : TextRangeAnchor) (len_chars : ℕ) (s : TextProjection)
    → IsText s
    → (apply_range_delete anchor len_chars s).visible_string
      ≡ cut (resolve_anchor_index anchor s) len_chars s.visible_string
unfolding apply_range_delete IsText IsShown
apply_range_delete-cut anchor len_chars s h =
    let start = resolve_anchor_index anchor s in
    delete_at-cut _ start s h
    ∙ ap (λ total. cut start (min len_chars (total - start)) s.visible_string)
        (h.0.1 ∙ ap length (sym (h.0.0)))
    ∙ cut-min start len_chars s.visible_string

visible_offset_of_id-StandsAt :
    (offset : ℕ) (id : OpId) (s : TextProjection)
    → StandsAt offset id s.items
    → visible_offset_of_id id s ≡ some offset
unfolding StandsAt visible_offset_of_id
visible_offset_of_id-StandsAt offset id s at = rw (at.0, at.1, at.2) refl

resolve_after :
    (offset : ℕ) (id : OpId) (s : TextProjection)
    → StandsAt offset id s.items
    → resolve_anchor_index (TextRangeAnchor.after id) s ≡ offset + 1
unfolding resolve_anchor_index
resolve_after offset id s at =
    ap (λ o. elim o [ some i ↦ i + 1 | none ↦ s.visible_chars_total ])
      (visible_offset_of_id-StandsAt offset id s at)

-- The anchor that is stored for an offset is found at the offset again, or at the end if the offset
-- is beyond it, where the string is that of the items and no id stands twice.
pub resolve_anchor_index-anchor_for_offset :
    (offset : ℕ) (s : TextProjection)
    → IsText s
    → resolve_anchor_index (anchor_for_offset offset s) s ≡ min offset s.visible_chars_total
unfolding IsText IsShown IsOnce count_id resolve_anchor_index anchor_for_offset id_at_visible_offset
resolve_anchor_index-anchor_for_offset offset s h = elim (Bool-cases (offset == 0)) [
  | inl first ↦ let e : offset ≡ 0 = ground arith in rw first (omega (arith, e))
  | inr later ↦ elim (Bool-cases (leb s.visible_chars_total offset)) [
    | inl beyond ↦
        let e : s.visible_chars_total ≤ offset = ground arith in
        rw (later, beyond) (omega (arith, e))
    | inr inside ↦ elim (Option-cases (visible_item_at (offset - 1) s.items)) [
      | inl e ↦ absurd (ground (arith, visible_item_at-none (offset - 1) s.items e, h.0.1))
      | inr w ↦
          let at =
            visible_item_at-StandsAt (offset - 1) w.0 s.items w.1 (omega (arith, h.1 w.0.id)) in
          let positive : 1 ≤ offset = ground arith in
          let below : offset ≤ s.visible_chars_total = ground arith in
          rw (later, inside, w.1)
            (resolve_after (offset - 1) w.0.id s at ∙ omega (arith, positive, below))
    ]
  ]
]
