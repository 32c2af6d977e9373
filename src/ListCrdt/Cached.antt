-- ===== src/ListCrdt/Cached.antt =====
-- The list cache of core/crdt/src/graph.rs shows what the replay of core/crdt/src/list.rs shows.
use Prim.Native.Nat.Ordering.{eq}
use nodalmerge.Base.{
  ℕ, ◌≡◌, ◌≢◌, refl, sym, ap, ◌∙◌, true, Bytes, List, [], ◌∷◌, Option, none, some, arith, inl, inr,
  ◌==◌, ==_iff, or_else, All, Bool-cases, bytes_eq→eq,
}
use nodalmerge.Base.Prio.{Prio}
use nodalmerge.Base.Sort.{sort, All-sort}
use nodalmerge.Op.{ListOp}
use nodalmerge.ListCrdt.{
  ItemState, fresh_item, Entry, entry_cmp, item_id, item_step, visible_position, ItemMap,
  update_item, visible_entries, ListCacheState, empty_list, same_position, drop_visible,
  show_visible, move_visible, update_cache_state,
}
use nodalmerge.ListCrdt.Order.{remove-insert, insert_new-insert, entry_cmp-IsTotal, eq_of_entry_cmp}
use nodalmerge.ListCrdt.Items.{
  lookup_item, item_at, without, IsItemMap, update_item-IsItemMap, lookup_item-update_item, show,
  sorted_entries, sorted_entries-without, without-update_item, without-ids,
}

-- the cache holds the items of the replay, and shows them in order
pub record Agrees (cache : ListCacheState) (items : ItemMap) : Type 0 where
  pub states : (j : ℕ) → or_else (cache.items j) fresh_item ≡ item_at j items
  pub shown : cache.visible ≡ sorted_entries items
  pub listed_once : IsItemMap items

pub empty-Agrees : Agrees empty_list []
unfolding item_at lookup_item sorted_entries visible_entries sort
empty-Agrees = record { states = λ j. refl; shown = refl; listed_once = tt }

same_position→eq : (p q : Option Bytes) → same_position p q ≡ true → p ≡ q
unfolding same_position
same_position→eq none none h = refl
same_position→eq none (some q) h = ground arith
same_position→eq (some p) none h = ground arith
same_position→eq (some p) (some q) h = ap some (bytes_eq→eq p q h)

-- the entries of other items do not equal one of this item
apart-ids :
    (j : ℕ) (p : Bytes) (l : List Entry)
    → All (λ (e : Entry). e.item_id ≢ j) l
    → All (λ (e : Entry). entry_cmp (record { position = p; item_id = j }) e ≢ eq) l
apart-ids j p [] h = tt
apart-ids j p (e ∷ l) h = (
  λ same. h.0 (sym (ap (λ (x : Entry). x.item_id) (eq_of_entry_cmp _ e same))),
  apart-ids j p l h.1,
)

drop_visible-show : (j : ℕ) (p : Option Bytes) (l : List Entry) → drop_visible j p (show j p l) ≡ l
unfolding drop_visible show
drop_visible-show j none l = refl
drop_visible-show j (some p) l = remove-insert entry_cmp entry_cmp-IsTotal _ l

show_visible-show :
    (j : ℕ) (p : Option Bytes) (l : List Entry)
    → All (λ (e : Entry). e.item_id ≢ j) l
    → show_visible j p l ≡ show j p l
unfolding show_visible show
show_visible-show j none l h = refl
show_visible-show j (some p) l h =
    insert_new-insert entry_cmp entry_cmp-IsTotal _ l (apart-ids j p l h)

-- an entry of an item moves from its old position to its new one
move_visible-show :
    (j : ℕ) (was now : Option Bytes) (l : List Entry)
    → All (λ (e : Entry). e.item_id ≢ j) l
    → move_visible j was now (show j was l) ≡ show j now l
unfolding move_visible
move_visible-show j was now l h = elim (Bool-cases (same_position was now)) [
  | inl same ↦ rw same (ap (λ p. show j p l) (same_position→eq was now same))
  | inr differ ↦ rw (differ, drop_visible-show j was l) (show_visible-show j now l h)
]

others-ids :
    (j : ℕ) (items : ItemMap)
    → All (λ (e : Entry). e.item_id ≢ j) (sorted_entries (without j items))
unfolding sorted_entries
others-ids j items = All-sort entry_cmp entry_cmp-IsTotal _ _ (without-ids j items)

item_at-update_item :
    (lop : ListOp) (at : Prio) (items : ItemMap)
    → item_at (item_id lop) (update_item lop at items)
      ≡ item_step lop at (item_at (item_id lop) items)
unfolding item_at
item_at-update_item lop at items = rw (
  lookup_item-update_item lop at (item_id lop) items,
  (==_iff (item_id lop) (item_id lop)).1 refl,
)

updated_states :
    (lop : ListOp) (at : Prio) (cache : ListCacheState) (items : ItemMap)
    → ((j : ℕ) → or_else (cache.items j) fresh_item ≡ item_at j items)
    → (j : ℕ)
    → or_else ((update_cache_state lop at cache).items j) fresh_item
      ≡ item_at j (update_item lop at items)
unfolding update_cache_state item_at
updated_states lop at cache items same j = elim (Bool-cases (item_id lop == j)) [
  | inl hit ↦
      rw (lookup_item-update_item lop at j items, hit)
        (ap (item_step lop at) (
          same (item_id lop)
          ∙ ap (λ i. or_else (lookup_item i items) fresh_item) ((==_iff (item_id lop) j).0 hit)))
  | inr miss ↦ rw (lookup_item-update_item lop at j items, miss) (same j)
]

-- An operation on the list leaves the cache and the replay in agreement.
pub update-Agrees :
    (lop : ListOp) (at : Prio) (cache : ListCacheState) (items : ItemMap)
    → Agrees cache items
    → Agrees (update_cache_state lop at cache) (update_item lop at items)
unfolding update_cache_state
update-Agrees lop at cache items a =
    let j : ℕ = item_id lop in
    let was : ItemState = item_at j items in
    let items' : ItemMap = update_item lop at items in
    let others : List Entry = sorted_entries (without j items) in
    record {
      states = λ i. updated_states lop at cache items a.states i;
      shown =
          ap
            (λ e.
              move_visible j (visible_position e) (visible_position (item_step lop at e))
                cache.visible)
            (a.states j)
          ∙ ap (move_visible j (visible_position was) (visible_position (item_step lop at was)))
              (a.shown ∙ sorted_entries-without j items a.listed_once)
          ∙ move_visible-show j (visible_position was) (visible_position (item_step lop at was))
              others (others-ids j items)
          ∙ ap (λ e. show j (visible_position e) others) (sym (item_at-update_item lop at items))
          ∙ ap (λ l. show j (visible_position (item_at j items')) (sorted_entries l))
              (sym (without-update_item lop at items))
          ∙ sym
              (sorted_entries-without j items' (update_item-IsItemMap lop at items a.listed_once));
      listed_once = update_item-IsItemMap lop at items a.listed_once;
    }
