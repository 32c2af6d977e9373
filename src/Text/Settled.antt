-- ===== src/Text/Settled.antt =====
-- The inserts of core/crdt/src/text.rs that wait: each waits for an anchor that is not there.
use nodalmerge.Base.{
  ℕ, zero, suc, ◌≡◌, refl, sym, ap, ◌∙◌, Bool, true, false, not, ◌||◌, List, [], ◌∷◌, ◌++◌, Bytes,
  if◌then◌else◌, Option, none, some, inl, inr, arith, Bool-cases, retain,
}
use nodalmerge.Base.Prio.{eqp, eqp→eq}
use nodalmerge.Op.{OpId}
use nodalmerge.Node.{SyncNode}
use nodalmerge.Text.{
  Item, Orphan, TextProjection, empty_projection, insert_at, has_item, is_orphan, integration_loc,
  integrate, integrate_children, push_children, waits_for, drain_orphans_of, apply_insert,
  is_deleted, delete_known, apply_delete,
}
use nodalmerge.Text.Sequence.{has_item-mark_deleted}
use nodalmerge.Text.Nodes.{from_nodes}
use nodalmerge.Text.Drains.{Drains, done, pop, integrate_children-orphans, drain_orphans_of-Drains}
use nodalmerge.Text.Keeping.{apply_nodes-Keeps}

-- some insert waits for this anchor
unfoldable pub is_awaited : OpId → List Orphan → Bool
is_awaited j [] = false
is_awaited j (o ∷ orphans) = eqp o.parent j || is_awaited j orphans

on_stack : OpId → List OpId → Bool
on_stack j [] = false
on_stack j (id ∷ stack) = eqp id j || on_stack j stack

-- an anchor that is there and that an insert waits for is still to be drained
IsSettling : List OpId → TextProjection → Type 0
IsSettling stack s =
    (j : OpId) → has_item j s.items ≡ true → is_awaited j s.orphans ≡ true → on_stack j stack ≡ true

-- no insert waits for an anchor that is there
unfoldable pub IsSettled : TextProjection → Type 0
IsSettled s = (j : OpId) → has_item j s.items ≡ true → is_awaited j s.orphans ≡ false

has_item-insert_at :
    (j : OpId) (loc : ℕ) (a : Item) (items : List Item)
    → has_item j (insert_at loc a items) ≡ (eqp a.id j || has_item j items)
unfolding has_item insert_at
has_item-insert_at j zero a items = refl
has_item-insert_at j (suc loc) a [] = refl
has_item-insert_at j (suc loc) a (x ∷ items) = ground (arith, has_item-insert_at j loc a items)

has_item-integrate :
    (j id : OpId) (parent : Option OpId) (ch : ℕ) (s : TextProjection)
    → has_item j (integrate id parent ch s).items ≡ (eqp id j || has_item j s.items)
unfolding integrate
has_item-integrate j id parent ch s =
    has_item-insert_at j (integration_loc id parent s.items)
      (record { id = id; ch = ch; deleted = s.pending_deletes id }) s.items

has_item-integrate_children :
    (j parent : OpId) (children : List Orphan) (s : TextProjection)
    → has_item j (integrate_children parent children s).items
      ≡ (is_orphan j children || has_item j s.items)
unfolding integrate_children is_orphan
has_item-integrate_children j parent [] s = refl
has_item-integrate_children j parent (o ∷ children) s = ground (
  arith,
  has_item-integrate_children j parent children (integrate o.child (some parent) o.ch s),
  has_item-integrate j o.child (some parent) o.ch s,
)

on_stack-push_children :
    (j : OpId) (children : List Orphan) (stack : List OpId)
    → on_stack j (push_children children stack) ≡ (is_orphan j children || on_stack j stack)
unfolding push_children is_orphan on_stack
on_stack-push_children j [] stack = refl
on_stack-push_children j (o ∷ children) stack =
    ground (arith, on_stack-push_children j children (o.child ∷ stack))

-- what still waits once the inserts that wait for `parent` are taken out
is_awaited-retain :
    (j parent : OpId) (orphans : List Orphan)
    → is_awaited j (retain (λ o. not (waits_for parent o)) orphans) ≡ true
    → (is_awaited j orphans ≡ true) × (eqp parent j ≡ false)
unfolding is_awaited retain eqp
is_awaited-retain j parent [] h = absurd (ground arith)
is_awaited-retain j parent (o ∷ orphans) h = elim (Bool-cases (eqp o.parent parent)) [
  | inl out ↦
      let (late, other) = is_awaited-retain j parent orphans (ground (arith, h)) in
      (ground arith, ground arith)
  | inr kept ↦ elim (Bool-cases (eqp o.parent j)) [
    | inl here ↦ (ground arith, ground arith)
    | inr there ↦
        let (late, other) = is_awaited-retain j parent orphans (ground (arith, h)) in
        (ground arith, ground arith)
  ]
]

is_awaited-append :
    (j : OpId) (orphans : List Orphan) (o : Orphan)
    → is_awaited j (orphans ++ o ∷ []) ≡ (eqp o.parent j || is_awaited j orphans)
unfolding is_awaited
is_awaited-append j [] o = refl
is_awaited-append j (p ∷ orphans) o = ground (arith, is_awaited-append j orphans o)

-- one round of the drain
round-IsSettling :
    (parent : OpId) (stack : List OpId) (s : TextProjection)
    → IsSettling (parent ∷ stack) s
    → IsSettling (push_children (retain (waits_for parent) s.orphans) stack) (
        integrate_children parent
          (retain (waits_for parent) s.orphans)
          (record s { orphans = retain (λ o. not (waits_for parent o)) s.orphans }))
unfolding IsSettling on_stack
round-IsSettling parent stack s h j there awaited =
    let children = retain (waits_for parent) s.orphans in
    let left : TextProjection = record s {
      orphans = retain (λ o. not (waits_for parent o)) s.orphans;
    } in
    let (late, other) =
      is_awaited-retain j parent s.orphans
        (ap (is_awaited j) (sym (integrate_children-orphans parent children left)) ∙ awaited) in
    elim (Bool-cases (has_item j s.items)) [
      | inl old ↦ ground (arith, h j old late, on_stack-push_children j children stack)
      | inr new ↦ ground (
        arith,
        has_item-integrate_children j parent children left,
        on_stack-push_children j children stack,
      )
    ]

Drains-IsSettling :
    {stack : List OpId} {s t : TextProjection}
    → Drains stack s t
    → IsSettling stack s
    → IsSettling [] t
Drains-IsSettling (done s) h = h
Drains-IsSettling (pop parent stack s t rest) h =
    Drains-IsSettling rest (round-IsSettling parent stack s h)

Settling-IsSettled : (s : TextProjection) → IsSettling [] s → IsSettled s
unfolding IsSettling IsSettled on_stack
Settling-IsSettled s h j there = elim (Bool-cases (is_awaited j s.orphans)) [
  | inl awaited ↦ absurd (ground (arith, h j there awaited))
  | inr free ↦ free
]

-- a new item is drained
integrated-IsSettled :
    (id : OpId) (parent : Option OpId) (ch : ℕ) (s : TextProjection)
    → IsSettled s
    → IsSettled (drain_orphans_of id (integrate id parent ch s))
unfolding IsSettling IsSettled on_stack integrate
integrated-IsSettled id parent ch s h =
    Settling-IsSettled (drain_orphans_of id (integrate id parent ch s)) (
      Drains-IsSettling (drain_orphans_of-Drains id (integrate id parent ch s))
        (λ j there awaited. ground (arith, has_item-integrate j id parent ch s, h j)))

-- an insert that waits
waiting-IsSettled :
    (id p : OpId) (ch : ℕ) (s : TextProjection)
    → has_item p s.items ≡ false
    → IsSettled s
    → IsSettled
        (record s { orphans = s.orphans ++ record { parent = p; child = id; ch = ch } ∷ [] })
unfolding IsSettled
waiting-IsSettled id p ch s missing h j there =
    is_awaited-append j s.orphans (record { parent = p; child = id; ch = ch })
    ∙ elim (Bool-cases (eqp p j)) [
      | inl same ↦ absurd (ground (arith, ap (λ i. has_item i s.items) (eqp→eq p j same)))
      | inr other ↦ ground (arith, h j there)
    ]

apply_insert-IsSettled :
    (id : OpId) (after : Option OpId) (ch : ℕ) (s : TextProjection)
    → IsSettled s
    → IsSettled (apply_insert id after ch s)
unfolding apply_insert
apply_insert-IsSettled id after ch s h =
    elim (Bool-cases (has_item id s.items || is_orphan id s.orphans)) [
      | inl known ↦ rw known h
      | inr new ↦ rw new (placed after)
    ]
  where
    placed :
        (after : Option OpId)
        → IsSettled (elim after [
          | none ↦ drain_orphans_of id (integrate id none ch s)
          | some p ↦
              if has_item p s.items
              then drain_orphans_of id (integrate id (some p) ch s)
              else record s {
                orphans = s.orphans ++ record { parent = p; child = id; ch = ch } ∷ [];
              }
        ])
    placed none = integrated-IsSettled id none ch s h
    placed (some p) = elim (Bool-cases (has_item p s.items)) [
      | inl there ↦ rw there (integrated-IsSettled id (some p) ch s h)
      | inr missing ↦ rw missing (waiting-IsSettled id p ch s missing h)
    ]

delete_known-IsSettled :
    (id : OpId) (s : TextProjection) → IsSettled s → IsSettled (delete_known id s)
unfolding IsSettled delete_known
delete_known-IsSettled id s h j = elim (Bool-cases (has_item id s.items)) [
  | inr missing ↦ rw missing (h j)
  | inl known ↦ elim (Bool-cases (is_deleted id s.items)) [
    | inl gone ↦ rw (known, gone) (h j)
    | inr there ↦ rw (known, there) (rw (has_item-mark_deleted j id s.items) (h j))
  ]
]

apply_delete-IsSettled :
    (target : OpId) (s : TextProjection) → IsSettled s → IsSettled (apply_delete target s)
unfolding apply_delete IsSettled
apply_delete-IsSettled target s h = elim (Bool-cases (has_item target s.items)) [
  | inl known ↦ rw known (delete_known-IsSettled target s h)
  | inr missing ↦ rw missing (λ j. h j)
]

-- In the projection of any nodes, in any order, no insert waits for an anchor that is among the items.
pub from_nodes-IsSettled : (nodes : List SyncNode) (key : Bytes) → IsSettled (from_nodes nodes key)
unfolding from_nodes IsSettled is_awaited
from_nodes-IsSettled nodes key =
    apply_nodes-Keeps IsSettled apply_insert-IsSettled delete_known-IsSettled apply_delete-IsSettled
      key nodes empty_projection (λ j there. refl)
