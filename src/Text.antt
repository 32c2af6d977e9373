-- ===== src/Text.antt =====
-- core/crdt/src/text.rs: the text of one key. The items stand in one list, in the order of the
-- document: the chunks that hold them, their slots and the map from ids to slots only speed the search
-- up. An id is the pair of a clock and an author, for which the code keeps a short name. Offsets in the
-- visible string count characters, not bytes. Counters that only measure, and the spans that were
-- edited, are left out. The loop that drains orphans counts rounds, one for each orphan and one more.
pub mod Index
pub mod Sequence
pub mod Updates
pub mod Shown
pub mod Converge
pub mod Nodes
pub mod Once
pub mod Ranges
pub mod Keeping
pub mod Kept
pub mod Drains
pub mod Settled
pub mod Orders
use nodalmerge.Base.{
  ℕ, zero, suc, ◌+◌, ◌-◌, Bool, true, false, not, ◌||◌, List, [], ◌∷◌, ◌++◌, map, Option, none,
  some, ◌==◌, if◌then◌else◌, length, any, retain,
}
use nodalmerge.Base.Prio.{gtp, eqp}
use nodalmerge.Op.{OpId}

pub record Item : Type 0 where
  pub id : OpId
  pub ch : ℕ
  pub deleted : Bool

-- an insert that waits for its anchor
pub record Orphan : Type 0 where
  pub parent : OpId
  pub child : OpId
  pub ch : ℕ

-- a hash set of ids is its test
pub record TextProjection : Type 0 where
  pub items : List Item
  pub pending_deletes : OpId → Bool
  pub orphans : List Orphan
  pub visible_string : List ℕ
  pub visible_chars_total : ℕ
  pub total_items : ℕ
  pub tombstone_count : ℕ

-- `TextProjection::default()`
abbrev pub empty_projection : TextProjection
empty_projection = record {
  items = [];
  pending_deletes = λ id. false;
  orphans = [];
  visible_string = [];
  visible_chars_total = 0;
  total_items = 0;
  tombstone_count = 0;
}

-- `insert` and `remove` of a vector or a string
unfoldable pub insert_at {ℓ} : {A : Type ℓ} → ℕ → A → List A → List A
insert_at zero a l = a ∷ l
insert_at (suc n) a [] = a ∷ []
insert_at (suc n) a (b ∷ l) = b ∷ insert_at n a l

unfoldable pub remove_at {ℓ} : {A : Type ℓ} → ℕ → List A → List A
remove_at n [] = []
remove_at zero (b ∷ l) = l
remove_at (suc n) (b ∷ l) = b ∷ remove_at n l

-- `id_to_chunk.contains_key` and `orphan_ids.contains`
unfoldable pub has_item : OpId → List Item → Bool
has_item id [] = false
has_item id (x ∷ items) = eqp x.id id || has_item id items

unfoldable pub is_orphan : OpId → List Orphan → Bool
is_orphan id [] = false
is_orphan id (o ∷ orphans) = eqp o.child id || is_orphan id orphans

unfoldable pub set_flag : OpId → Bool → (OpId → Bool) → OpId → Bool
set_flag id flag flags j = if eqp id j then flag else flags j

-- `loc_of_id`, or the end
unfoldable pub loc_of_id : OpId → List Item → ℕ
loc_of_id id [] = 0
loc_of_id id (x ∷ items) = if eqp x.id id then 0 else suc (loc_of_id id items)

-- the scan over the items with a larger id
unfoldable pub scan_from : OpId → List Item → ℕ
scan_from id [] = 0
scan_from id (x ∷ items) = if gtp x.id id then suc (scan_from id items) else 0

-- where `integrate` inserts: the scan starts behind the anchor
unfoldable pub scan_after : OpId → OpId → List Item → ℕ
scan_after parent id [] = 0
scan_after parent id (x ∷ items) =
    suc (if eqp x.id parent then scan_from id items else scan_after parent id items)

unfoldable pub integration_loc : OpId → Option OpId → List Item → ℕ
integration_loc id none items = scan_from id items
integration_loc id (some parent) items = scan_after parent id items

-- the visible items before a location
unfoldable pub visible_prefix_at : ℕ → List Item → ℕ
visible_prefix_at zero items = 0
visible_prefix_at (suc n) [] = 0
visible_prefix_at (suc n) (x ∷ items) = (if x.deleted then 0 else 1) + visible_prefix_at n items

unfoldable pub integrate : OpId → Option OpId → ℕ → TextProjection → TextProjection
integrate id parent ch s =
    let loc = integration_loc id parent s.items in
    let deleted = s.pending_deletes id in
    record s {
      items = insert_at loc (record { id = id; ch = ch; deleted = deleted }) s.items;
      pending_deletes = set_flag id false s.pending_deletes;
      total_items = s.total_items + 1;
      tombstone_count = if deleted then s.tombstone_count + 1 else s.tombstone_count;
      visible_chars_total = if deleted then s.visible_chars_total else s.visible_chars_total + 1;
      visible_string =
          if deleted
          then s.visible_string
          else insert_at (visible_prefix_at loc s.items) ch s.visible_string;
    }

-- the children of an anchor in the order of arrival, each integrated behind it
unfoldable pub integrate_children : OpId → List Orphan → TextProjection → TextProjection
integrate_children parent [] s = s
integrate_children parent (o ∷ children) s =
    integrate_children parent children (integrate o.child (some parent) o.ch s)

-- the children pushed on the stack, the last one on top
unfoldable pub push_children : List Orphan → List OpId → List OpId
push_children [] stack = stack
push_children (o ∷ children) stack = push_children children (o.child ∷ stack)

abbrev pub waits_for : OpId → Orphan → Bool
waits_for parent o = eqp o.parent parent

unfoldable pub drain_loop : ℕ → List OpId → TextProjection → TextProjection
drain_loop zero stack s = s
drain_loop (suc rounds) [] s = s
drain_loop (suc rounds) (parent ∷ stack) s =
    let children = retain (waits_for parent) s.orphans in
    drain_loop rounds (push_children children stack) (
      integrate_children parent children
        (record s { orphans = retain (λ o. not (waits_for parent o)) s.orphans }))

unfoldable pub drain_orphans_of : OpId → TextProjection → TextProjection
drain_orphans_of parent s = drain_loop (suc (length s.orphans)) (parent ∷ []) s

unfoldable pub apply_insert : OpId → Option OpId → ℕ → TextProjection → TextProjection
apply_insert id after ch s =
    if has_item id s.items || is_orphan id s.orphans then s else elim after [
      | none ↦ drain_orphans_of id (integrate id none ch s)
      | some p ↦
          if has_item p s.items
          then drain_orphans_of id (integrate id (some p) ch s)
          else record s { orphans = s.orphans ++ record { parent = p; child = id; ch = ch } ∷ [] }
    ]

-- the tombstone of an item
unfoldable pub mark_deleted : OpId → List Item → List Item
mark_deleted id [] = []
mark_deleted id (x ∷ items) =
    if eqp x.id id then record x { deleted = true } ∷ items else x ∷ mark_deleted id items

unfoldable pub is_deleted : OpId → List Item → Bool
is_deleted id [] = false
is_deleted id (x ∷ items) = if eqp x.id id then x.deleted else is_deleted id items

unfoldable pub delete_known : OpId → TextProjection → TextProjection
delete_known id s =
    if not (has_item id s.items)
    then record s { pending_deletes = set_flag id true s.pending_deletes }
    else if is_deleted id s.items
    then s
    else record s {
      items = mark_deleted id s.items;
      tombstone_count = s.tombstone_count + 1;
      visible_chars_total = s.visible_chars_total - 1;
      visible_string =
          remove_at (visible_prefix_at (loc_of_id id s.items) s.items) s.visible_string;
    }

unfoldable pub apply_delete : OpId → TextProjection → TextProjection
apply_delete target s =
    if has_item target s.items
    then delete_known target s
    else record s { pending_deletes = set_flag target true s.pending_deletes }

pub data ProjectionUpdateOp : Type 0 where
  insert : OpId → Option OpId → ℕ → ProjectionUpdateOp
  delete : OpId → ProjectionUpdateOp

unfoldable pub apply_update : ProjectionUpdateOp → TextProjection → TextProjection
apply_update (ProjectionUpdateOp.insert id after ch) s = apply_insert id after ch s
apply_update (ProjectionUpdateOp.delete target) s = apply_delete target s

unfoldable pub apply_updates_coalesced : List ProjectionUpdateOp → TextProjection → TextProjection
apply_updates_coalesced [] s = s
apply_updates_coalesced (update ∷ updates) s =
    apply_updates_coalesced updates (apply_update update s)
