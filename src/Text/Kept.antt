-- ===== src/Text/Kept.antt =====
-- What a node of core/crdt/src/text.rs leaves: the string is that of the items, and every id stands
-- once.
use nodalmerge.Base.{ℕ, Bytes, List, Option, arith, refl}
use nodalmerge.Op.{OpId}
use nodalmerge.Node.{SyncNode}
use nodalmerge.Text.{TextProjection, empty_projection, delete_known, apply_insert, apply_delete}
use nodalmerge.Text.Nodes.{from_nodes}
use nodalmerge.Text.Keeping.{apply_nodes-Keeps}
use nodalmerge.Text.Shown.{
  IsShown, shown, apply_insert-IsShown, delete_known-IsShown, apply_delete-IsShown,
}
use nodalmerge.Text.Once.{
  IsOnce, count_id, count_item, count_orphan, apply_insert-IsOnce, delete_known-IsOnce,
  apply_delete-IsOnce,
}

-- the string and the counters are those of the items, and no id stands twice
unfoldable pub IsText : TextProjection → Type 0
IsText s = IsShown s × IsOnce s

insert-IsText :
    (id : OpId) (after : Option OpId) (ch : ℕ) (s : TextProjection)
    → IsText s
    → IsText (apply_insert id after ch s)
unfolding IsText
insert-IsText id after ch s h =
    (apply_insert-IsShown id after ch s h.0, apply_insert-IsOnce id after ch s h.1)

pub known-IsText : (id : OpId) (s : TextProjection) → IsText s → IsText (delete_known id s)
unfolding IsText
known-IsText id s h = (delete_known-IsShown id s h.0, delete_known-IsOnce id s h.1)

delete-IsText : (target : OpId) (s : TextProjection) → IsText s → IsText (apply_delete target s)
unfolding IsText
delete-IsText target s h = (apply_delete-IsShown target s h.0, apply_delete-IsOnce target s h.1)

empty-IsText : IsText empty_projection
unfolding IsText IsShown IsOnce shown count_id count_item count_orphan
empty-IsText = ((refl, refl, refl, refl), λ j. omega arith)

-- The projection of any nodes, in any order, has the string and the counters of its items, and no id
-- stands twice in it.
pub from_nodes-IsText : (nodes : List SyncNode) (key : Bytes) → IsText (from_nodes nodes key)
unfolding from_nodes
from_nodes-IsText nodes key =
    apply_nodes-Keeps IsText insert-IsText known-IsText delete-IsText key nodes empty_projection
      empty-IsText
