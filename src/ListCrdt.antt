-- ===== src/ListCrdt.antt =====
-- The list CRDT: `resolve_list_seq` of core/crdt/src/list.rs, which resolves a list by replay, and
-- the cache of core/crdt/src/graph.rs, which is kept up to date with every operation. `ItemState`
-- and `ListItemCache` have the same fields, and are one record here.
pub mod Order
pub mod Items
pub mod Cached
pub mod Perms
pub mod Converge
use Prim.Native.Nat.{Ordering, compare}
use Prim.Native.Nat.Ordering.{eq}
use nodalmerge.Base.{
  ℕ, Bool, true, false, ◌&&◌, not, Bytes, List, [], ◌∷◌, Option, none, some, ◌==◌, if◌then◌else◌,
  StringMap, IdMap, put_str, put_id, empty_map, or_else, bytes_eq, bytes_cmp,
}
use nodalmerge.Base.Prio.{Prio, gtp, zero_prio}
use nodalmerge.Base.Sort.{sort, insert_new, remove}
use nodalmerge.Op.{Op, ListOp, prio, list_key}
use nodalmerge.Node.{SyncNode}

pub record ItemState : Type 0 where
  pub position : Option Bytes
  pub pos_priority : Prio
  pub saw_insert : Bool
  pub deleted : Bool

-- `ItemState::default()` and `ListItemCache::default()`
abbrev pub fresh_item : ItemState
fresh_item = record {
  position = none;
  pos_priority = zero_prio;
  saw_insert = false;
  deleted = false;
}

-- `(FracIdx, ItemId)`, with its derived order
pub record Entry : Type 0 where
  pub position : Bytes
  pub item_id : ℕ

abbrev pub then_compare : Ordering → Ordering → Ordering
then_compare eq second = second
then_compare first _ = first

unfoldable pub entry_cmp : Entry → Entry → Ordering
entry_cmp a b = then_compare (bytes_cmp a.position b.position) (compare a.item_id b.item_id)

unfoldable pub item_id : ListOp → ℕ
item_id (ListOp.insert key item position) = item
item_id (ListOp.delete key item) = item
item_id (ListOp.move key item position) = item

-- the position goes to the operation of higher priority
unfoldable pub place : Bytes → Prio → ItemState → ItemState
place position at entry =
    if gtp at entry.pos_priority
    then record entry { position = some position; pos_priority = at }
    else entry

-- what an operation does to its item, in both resolvers
unfoldable pub item_step : ListOp → Prio → ItemState → ItemState
unfolding place
item_step (ListOp.insert key item position) at entry =
    place position at (record entry { saw_insert = true })
item_step (ListOp.move key item position) at entry = place position at entry
item_step (ListOp.delete key item) at entry = record entry { deleted = true }

-- `position` where `is_visible()`
unfoldable pub visible_position : ItemState → Option Bytes
visible_position entry = if entry.saw_insert && not entry.deleted then entry.position else none

pub record ListCacheState : Type 0 where
  pub items : IdMap ItemState
  pub visible : List Entry

abbrev pub empty_list : ListCacheState
empty_list = record { items = empty_map; visible = [] }

unfoldable pub same_position : Option Bytes → Option Bytes → Bool
same_position none none = true
same_position none (some q) = false
same_position (some p) none = false
same_position (some p) (some q) = bytes_eq p q

unfoldable pub drop_visible : ℕ → Option Bytes → List Entry → List Entry
drop_visible item none visible = visible
drop_visible item (some p) visible =
    remove entry_cmp (record { position = p; item_id = item }) visible

unfoldable pub show_visible : ℕ → Option Bytes → List Entry → List Entry
show_visible item none visible = visible
show_visible item (some p) visible =
    insert_new entry_cmp (record { position = p; item_id = item }) visible

unfoldable pub move_visible : ℕ → Option Bytes → Option Bytes → List Entry → List Entry
unfolding same_position drop_visible show_visible
move_visible item was now visible =
    if same_position was now then visible else show_visible item now (drop_visible item was visible)

-- `update_list_cache`, at the slot of the list
unfoldable pub update_cache_state : ListOp → Prio → ListCacheState → ListCacheState
unfolding item_id item_step visible_position move_visible
update_cache_state lop at cache =
    let item = item_id lop in
    let entry : ItemState = or_else (cache.items item) fresh_item in
    let entry' : ItemState = item_step lop at entry in
    record {
      items = put_id item entry' cache.items;
      visible = move_visible item (visible_position entry) (visible_position entry') cache.visible;
    }

unfoldable pub update_list_cache :
    StringMap ListCacheState → ListOp → Prio → StringMap ListCacheState
unfolding update_cache_state
update_list_cache lists lop at =
    put_str (list_key lop) (update_cache_state lop at (or_else (lists (list_key lop)) empty_list))
      lists

-- `resolve_list`
unfoldable pub resolve_list : StringMap ListCacheState → Bytes → List Entry
resolve_list lists key = (or_else (lists key) empty_list).visible

-- The hash map of `resolve_list_seq`, which iterates over it: its order is not the program's.
abbrev pub ItemMap : Type 0
ItemMap = List (ℕ × ItemState)

unfoldable pub update_item : ListOp → Prio → ItemMap → ItemMap
unfolding item_step item_id
update_item lop at [] = (item_id lop, item_step lop at fresh_item) ∷ []
update_item lop at ((j, entry) ∷ items) =
    if j == item_id lop
    then (j, item_step lop at entry) ∷ items
    else (j, entry) ∷ update_item lop at items

unfoldable pub replay_list_ops : Bytes → Prio → List Op → ItemMap → ItemMap
unfolding update_item
replay_list_ops key at [] items = items
replay_list_ops key at (Op.list lop ∷ ops) items =
    replay_list_ops key at ops
      (if bytes_eq (list_key lop) key then update_item lop at items else items)
replay_list_ops key at (Op.map m ∷ ops) items = replay_list_ops key at ops items
replay_list_ops key at (Op.text t ∷ ops) items = replay_list_ops key at ops items

unfoldable pub replay_list_nodes : Bytes → List SyncNode → ItemMap → ItemMap
unfolding replay_list_ops
replay_list_nodes key [] items = items
replay_list_nodes key (node ∷ nodes) items =
    replay_list_nodes key nodes
      (replay_list_ops key (prio node.transaction) node.transaction.ops items)

-- the `filter_map` over the items
unfoldable pub visible_entries : ItemMap → List Entry
unfolding visible_position
visible_entries [] = []
visible_entries ((j, entry) ∷ items) = elim (visible_position entry) [
  | none ↦ visible_entries items
  | some p ↦ record { position = p; item_id = j } ∷ visible_entries items
]

unfoldable pub resolve_list_seq : List SyncNode → Bytes → List Entry
unfolding replay_list_nodes visible_entries
resolve_list_seq nodes key = sort entry_cmp (visible_entries (replay_list_nodes key nodes []))
