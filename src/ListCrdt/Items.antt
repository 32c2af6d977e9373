-- ===== src/ListCrdt/Items.antt =====
-- The items that `resolve_list_seq` of core/crdt/src/list.rs collects, looked up by id: what one
-- operation does to them, and to the sorted list of the visible ones.
use nodalmerge.Base.{
  ℕ, ◌≡◌, ◌≢◌, refl, sym, ap, subst, ◌∙◌, false, Bytes, List, [], ◌∷◌, Option, none, some, arith,
  inl, inr, ◌==◌, ==_iff, if◌then◌else◌, or_else, All, Bool-cases,
}
use nodalmerge.Base.Prio.{Prio}
use nodalmerge.Base.Sort.{sort, insert, insert-insert}
use nodalmerge.Op.{ListOp}
use nodalmerge.ListCrdt.{
  ItemState, fresh_item, Entry, entry_cmp, item_id, item_step, visible_position, ItemMap,
  update_item, visible_entries,
}
use nodalmerge.ListCrdt.Order.{entry_cmp-IsTotal}

unfoldable pub lookup_item : ℕ → ItemMap → Option ItemState
lookup_item j [] = none
lookup_item j ((k, entry) ∷ items) = if k == j then some entry else lookup_item j items

-- the state of an item, where one that no operation has named is fresh
unfoldable pub item_at : ℕ → ItemMap → ItemState
unfolding lookup_item
item_at j items = or_else (lookup_item j items) fresh_item

-- the items without one
unfoldable pub without : ℕ → ItemMap → ItemMap
without j [] = []
without j ((k, entry) ∷ items) =
    let rest = without j items in if k == j then rest else (k, entry) ∷ rest

abbrev pub IsAbsent : ℕ → ItemMap → Type 0
IsAbsent j items = All (λ (p : ℕ × ItemState). (p.0 == j) ≡ false) items

-- no item is listed twice
abbrev pub IsItemMap : ItemMap → Type 0
IsItemMap [] = Unit
IsItemMap ((k, entry) ∷ items) = IsAbsent k items × IsItemMap items

update_item-IsAbsent :
    (lop : ListOp) (at : Prio) (j : ℕ) (items : ItemMap)
    → (item_id lop == j) ≡ false
    → IsAbsent j items
    → IsAbsent j (update_item lop at items)
unfolding update_item
update_item-IsAbsent lop at j [] differ h = (differ, tt)
update_item-IsAbsent lop at j ((k, entry) ∷ items) differ h = elim (Bool-cases (k == item_id lop)) [
  | inl hit ↦ rw hit h
  | inr miss ↦ rw miss (h.0, update_item-IsAbsent lop at j items differ h.1)
]

pub update_item-IsItemMap :
    (lop : ListOp) (at : Prio) (items : ItemMap)
    → IsItemMap items
    → IsItemMap (update_item lop at items)
unfolding update_item
update_item-IsItemMap lop at [] h = (tt, tt)
update_item-IsItemMap lop at ((k, entry) ∷ items) h = elim (Bool-cases (k == item_id lop)) [
  | inl hit ↦ rw hit h
  | inr miss ↦ rw miss (
    update_item-IsAbsent lop at k items (ground arith) h.0,
    update_item-IsItemMap lop at items h.1,
  )
]

-- an operation steps its item and no other
pub lookup_item-update_item :
    (lop : ListOp) (at : Prio) (j : ℕ) (items : ItemMap)
    → lookup_item j (update_item lop at items) ≡ (
        if item_id lop == j
        then some (item_step lop at (or_else (lookup_item j items) fresh_item))
        else lookup_item j items)
unfolding update_item lookup_item
lookup_item-update_item lop at j [] = refl
lookup_item-update_item lop at j ((k, entry) ∷ items) =
    ground (arith, lookup_item-update_item lop at j items)

-- an entry of an item, where it is visible, in a sorted list
unfoldable pub show : ℕ → Option Bytes → List Entry → List Entry
show j none l = l
show j (some p) l = insert entry_cmp (record { position = p; item_id = j }) l

show-show :
    (j k : ℕ) (p q : Option Bytes) (l : List Entry) → show j p (show k q l) ≡ show k q (show j p l)
unfolding show
show-show j k none q l = refl
show-show j k (some p) none l = refl
show-show j k (some p) (some q) l = insert-insert entry_cmp entry_cmp-IsTotal _ _ l

-- the visible entries, in order
unfoldable pub sorted_entries : ItemMap → List Entry
sorted_entries items = sort entry_cmp (visible_entries items)

sorted_entries-cons :
    (j : ℕ) (entry : ItemState) (items : ItemMap)
    → sorted_entries ((j, entry) ∷ items) ≡ show j (visible_position entry) (sorted_entries items)
unfolding sorted_entries visible_entries show sort
sorted_entries-cons j entry items =
    elim (visible_position entry)
      as (λ v.
        sort entry_cmp (elim v [
          | none ↦ visible_entries items
          | some p ↦ record { position = p; item_id = j } ∷ visible_entries items
        ])
        ≡ show j v (sort entry_cmp (visible_entries items))) [ none ↦ refl | some p ↦ refl ]

pub without-absent : (j : ℕ) (items : ItemMap) → IsAbsent j items → without j items ≡ items
unfolding without
without-absent j [] h = refl
without-absent j ((k, entry) ∷ items) h = ground (arith, without-absent j items h.1)

-- an item stands in the sorted list once, apart from the others
pub sorted_entries-without :
    (j : ℕ) (items : ItemMap)
    → IsItemMap items
    → sorted_entries items
      ≡ show j (visible_position (item_at j items)) (sorted_entries (without j items))
unfolding item_at lookup_item without
sorted_entries-without j [] h = unfold show visible_position in refl
sorted_entries-without j ((k, entry) ∷ items) h = elim (Bool-cases (k == j)) [
  | inl hit ↦
      let same : k ≡ j = (==_iff k j).0 hit in
      let absent : IsAbsent j items = subst (λ i. IsAbsent i items) same h.0 in
      rw (hit, sorted_entries-cons k entry items)
        (ap (λ i. show i (visible_position entry) (sorted_entries items)) same
          ∙ ap (λ l. show j (visible_position entry) (sorted_entries l))
              (sym (without-absent j items absent)))
  | inr miss ↦ rw miss (
      sorted_entries-cons k entry items
      ∙ ap (show k (visible_position entry)) (sorted_entries-without j items h.1)
      ∙ show-show k j (visible_position entry) (visible_position (item_at j items))
          (sorted_entries (without j items))
      ∙ ap (show j (visible_position (item_at j items)))
          (sym (sorted_entries-cons k entry (without j items))))
]

pub without-update_item :
    (lop : ListOp) (at : Prio) (items : ItemMap)
    → without (item_id lop) (update_item lop at items) ≡ without (item_id lop) items
unfolding without update_item
without-update_item lop at [] = ground arith
without-update_item lop at ((k, entry) ∷ items) = ground (arith, without-update_item lop at items)

visible_entries-All :
    (P : Entry → Type 0) (k : ℕ) (entry : ItemState) (items : ItemMap)
    → ((p : Bytes) → P (record { position = p; item_id = k }))
    → All P (visible_entries items)
    → All P (visible_entries ((k, entry) ∷ items))
unfolding visible_entries
visible_entries-All P k entry items here rest =
    elim (visible_position entry)
      as (λ v. All P (elim v [
        | none ↦ visible_entries items
        | some p ↦ record { position = p; item_id = k } ∷ visible_entries items
      ])) [ none ↦ rest | some p ↦ (here p, rest) ]

-- no entry of the others is one of the item
pub without-ids :
    (j : ℕ) (items : ItemMap)
    → All (λ (e : Entry). e.item_id ≢ j) (visible_entries (without j items))
unfolding without
without-ids j [] = unfold visible_entries in tt
without-ids j ((k, entry) ∷ items) = elim (Bool-cases (k == j)) [
  | inl hit ↦ rw hit (without-ids j items)
  | inr miss ↦
      rw miss
        (visible_entries-All _ k entry (without j items) (λ p. ground arith) (without-ids j items))
]
