-- ===== src/Text/Updates.antt =====
-- An update of core/crdt/src/text.rs whose anchor is there, as a step on the items and the pending
-- deletes: two updates that are both ready commute.
use mathlib.Core.Path.{ap₂}
use nodalmerge.Base.{
  ℕ, ◌≡◌, refl, sym, ◌∙◌, Bool, true, false, not, ◌&&◌, List, [], ◌∷◌, Option, none, some, inl, inr,
  arith, if◌then◌else◌, Bool-cases, fun_ext, subst,
}
use nodalmerge.Base.Prio.{eqp, eqp→eq, eqp_refl, eqp_comm}
use nodalmerge.Op.{OpId}
use nodalmerge.Text.{Item, has_item, set_flag, mark_deleted, ProjectionUpdateOp}
use nodalmerge.Text.Sequence.{
  put_item, has_anchor, put_item-put_item, mark_deleted-put_item, mark_deleted_comm,
  mark_deleted-put_item_own, has_item-put_item, has_item-mark_deleted,
}

-- what of a projection decides its text
pub record Doc : Type 0 where
  pub items : List Item
  pub pending : OpId → Bool

unfoldable pub step : ProjectionUpdateOp → Doc → Doc
step (ProjectionUpdateOp.insert id after ch) d = record {
  items = put_item after (record { id = id; ch = ch; deleted = d.pending id }) d.items;
  pending = set_flag id false d.pending;
}
step (ProjectionUpdateOp.delete target) d = record {
  items = mark_deleted target d.items;
  pending = if has_item target d.items then d.pending else set_flag target true d.pending;
}

-- the id is new and the anchor is there
unfoldable pub is_ready : ProjectionUpdateOp → Doc → Bool
is_ready (ProjectionUpdateOp.insert id after ch) d =
    not (has_item id d.items) && has_anchor after d.items
is_ready (ProjectionUpdateOp.delete target) d = true

doc_ext : (c d : Doc) → c.items ≡ d.items → c.pending ≡ d.pending → c ≡ d
doc_ext c d e f = ap₂ (λ items pending. record { items = items; pending = pending }) e f

set_flag_comm :
    (a b : OpId) (x y : Bool) (flags : OpId → Bool)
    → eqp a b ≡ false
    → set_flag a x (set_flag b y flags) ≡ set_flag b y (set_flag a x flags)
unfolding set_flag
set_flag_comm a b x y flags differ = fun_ext (λ j. ground (arith, eqp→eq a j, eqp_comm a b))

set_flag_swap :
    (a b : OpId) (x : Bool) (flags : OpId → Bool)
    → set_flag a x (set_flag b x flags) ≡ set_flag b x (set_flag a x flags)
unfolding set_flag
set_flag_swap a b x flags = fun_ext (λ j. ground arith)

set_flag_over :
    (a : OpId) (x y : Bool) (flags : OpId → Bool)
    → set_flag a x (set_flag a y flags) ≡ set_flag a x flags
unfolding set_flag
set_flag_over a x y flags = fun_ext (λ j. ground arith)

set_flag_other :
    (a b : OpId) (x : Bool) (flags : OpId → Bool) → eqp a b ≡ false → set_flag a x flags b ≡ flags b
unfolding set_flag
set_flag_other a b x flags differ = rw differ refl

set_flag_here : (a : OpId) (x : Bool) (flags : OpId → Bool) → set_flag a x flags a ≡ x
unfolding set_flag
set_flag_here a x flags = rw (eqp_refl a) refl

pub mark_deleted-missing :
    (target : OpId) (items : List Item)
    → has_item target items ≡ false
    → mark_deleted target items ≡ items
unfolding mark_deleted has_item
mark_deleted-missing target [] new = refl
mark_deleted-missing target (x ∷ items) new = ground (arith, mark_deleted-missing target items)

-- an insert and a delete of another item
insert-delete :
    (id target : OpId) (after : Option OpId) (ch : ℕ) (d : Doc)
    → eqp id target ≡ false
    → step (ProjectionUpdateOp.insert id after ch) (step (ProjectionUpdateOp.delete target) d)
      ≡ step (ProjectionUpdateOp.delete target) (step (ProjectionUpdateOp.insert id after ch) d)
unfolding step
insert-delete id target after ch d other = elim (Bool-cases (has_item target d.items)) [
  | inl there ↦
      let known =
        has_item-put_item target after (record { id = id; ch = ch; deleted = d.pending id })
          d.items in
      doc_ext _ _ (rw there (sym (mark_deleted-put_item target after _ d.items other)))
        (rw (there, known, other, there) refl)
  | inr missing ↦
      let known =
        has_item-put_item target after (record { id = id; ch = ch; deleted = d.pending id })
          d.items in
      doc_ext _ _
        (rw (missing, set_flag_other target id true d.pending (eqp_comm target id ∙ other))
          (sym (mark_deleted-put_item target after _ d.items other)))
        (rw (missing, known, other, missing) (set_flag_comm id target false true d.pending other))
]

-- an insert and a delete of its own item
insert-delete_own :
    (id : OpId) (after : Option OpId) (ch : ℕ) (d : Doc)
    → has_item id d.items ≡ false
    → step (ProjectionUpdateOp.insert id after ch) (step (ProjectionUpdateOp.delete id) d)
      ≡ step (ProjectionUpdateOp.delete id) (step (ProjectionUpdateOp.insert id after ch) d)
unfolding step
insert-delete_own id after ch d new =
    let known =
      has_item-put_item id after (record { id = id; ch = ch; deleted = d.pending id }) d.items in
    doc_ext _ _
      (rw (new, set_flag_here id true d.pending, mark_deleted-missing id d.items new)
        (sym (mark_deleted-put_item_own after id ch (d.pending id) d.items new)))
      (rw (new, known, eqp_refl id) (set_flag_over id false true d.pending))

insert-insert :
    (id id' : OpId) (after after' : Option OpId) (ch ch' : ℕ) (d : Doc)
    → is_ready (ProjectionUpdateOp.insert id after ch) d ≡ true
    → is_ready (ProjectionUpdateOp.insert id' after' ch') d ≡ true
    → eqp id id' ≡ false
    → step
        (ProjectionUpdateOp.insert id after ch)
        (step (ProjectionUpdateOp.insert id' after' ch') d)
      ≡ step
          (ProjectionUpdateOp.insert id' after' ch')
          (step (ProjectionUpdateOp.insert id after ch) d)
unfolding step is_ready
insert-insert id id' after after' ch ch' d h h' differ =
    doc_ext _ _
      (rw
        (
          set_flag_other id' id false d.pending (eqp_comm id' id ∙ differ),
          set_flag_other id id' false d.pending differ,
        )
        (put_item-put_item after after' _ _ d.items (ground arith) (ground arith) (ground arith)
          (ground arith) differ))
      (set_flag_comm id id' false false d.pending differ)

-- whether a delete finds its item does not depend on another delete
delete-delete :
    (s t : OpId) (d : Doc)
    → step (ProjectionUpdateOp.delete s) (step (ProjectionUpdateOp.delete t) d)
      ≡ step (ProjectionUpdateOp.delete t) (step (ProjectionUpdateOp.delete s) d)
unfolding step
delete-delete s t d =
    let e = has_item-mark_deleted s t d.items in
    let f = has_item-mark_deleted t s d.items in
    doc_ext _ _ (mark_deleted_comm s t d.items)
      (rw (e, f) (choices (has_item s d.items) (has_item t d.items)))
  where
    choices :
        (there there' : Bool)
        → (if there
            then (if there' then d.pending else set_flag t true d.pending)
            else set_flag s true (if there' then d.pending else set_flag t true d.pending))
          ≡ (if there'
              then (if there then d.pending else set_flag s true d.pending)
              else set_flag t true (if there then d.pending else set_flag s true d.pending))
    choices true there' = elim there' [ true ↦ refl | false ↦ refl ]
    choices false true = refl
    choices false false = set_flag_swap s t true d.pending

-- an insert that is ready and a delete
insert-delete_any :
    (id target : OpId) (after : Option OpId) (ch : ℕ) (d : Doc)
    → is_ready (ProjectionUpdateOp.insert id after ch) d ≡ true
    → step (ProjectionUpdateOp.insert id after ch) (step (ProjectionUpdateOp.delete target) d)
      ≡ step (ProjectionUpdateOp.delete target) (step (ProjectionUpdateOp.insert id after ch) d)
unfolding is_ready
insert-delete_any id target after ch d h = elim (Bool-cases (eqp id target)) [
  | inr other ↦ insert-delete id target after ch d other
  | inl own ↦
      subst
        (λ t.
          step (ProjectionUpdateOp.insert id after ch) (step (ProjectionUpdateOp.delete t) d)
          ≡ step (ProjectionUpdateOp.delete t) (step (ProjectionUpdateOp.insert id after ch) d))
        (eqp→eq id target own) (insert-delete_own id after ch d (ground arith))
]

-- Two ready updates commute, if the first is still ready after the second.
pub step-step :
    (x y : ProjectionUpdateOp) (d : Doc)
    → is_ready x d ≡ true
    → is_ready y d ≡ true
    → is_ready x (step y d) ≡ true
    → step x (step y d) ≡ step y (step x d)
unfolding is_ready step
step-step (ProjectionUpdateOp.insert id after ch) (ProjectionUpdateOp.insert id' after' ch') d h h'
      k =
    insert-insert id id' after after' ch ch' d h h' (
      ground (
        arith,
        eqp_comm id id',
        has_item-put_item id after' (record { id = id'; ch = ch'; deleted = d.pending id' })
            d.items,
      ))
step-step (ProjectionUpdateOp.insert id after ch) (ProjectionUpdateOp.delete t) d h h' k =
    insert-delete_any id t after ch d h
step-step (ProjectionUpdateOp.delete s) (ProjectionUpdateOp.insert id' after' ch') d h h' k =
    sym (insert-delete_any id' s after' ch' d h')
step-step (ProjectionUpdateOp.delete s) (ProjectionUpdateOp.delete t) d h h' k = delete-delete s t d

-- an item stays
pub has_item-step :
    (j : OpId) (x : ProjectionUpdateOp) (d : Doc)
    → has_item j d.items ≡ true
    → has_item j (step x d).items ≡ true
unfolding step
has_item-step j (ProjectionUpdateOp.insert id after ch) d h =
    ground (
      arith,
      has_item-put_item j after (record { id = id; ch = ch; deleted = d.pending id }) d.items,
    )
has_item-step j (ProjectionUpdateOp.delete t) d h = has_item-mark_deleted j t d.items ∙ h

has_anchor-step :
    (after : Option OpId) (x : ProjectionUpdateOp) (d : Doc)
    → has_anchor after d.items ≡ true
    → has_anchor after (step x d).items ≡ true
unfolding has_anchor
has_anchor-step none x d h = refl
has_anchor-step (some p) x d h = has_item-step p x d h

-- nothing but the arrival of its own id makes a ready update unready
unfoldable pub is_new : ProjectionUpdateOp → Doc → Bool
is_new (ProjectionUpdateOp.insert id after ch) d = not (has_item id d.items)
is_new (ProjectionUpdateOp.delete target) d = true

pub is_new-step :
    (x y : ProjectionUpdateOp) (d : Doc) → is_new x (step y d) ≡ true → is_new x d ≡ true
unfolding is_new
is_new-step (ProjectionUpdateOp.insert id after ch) y d h = ground (arith, has_item-step id y d)
is_new-step (ProjectionUpdateOp.delete target) y d h = refl

pub is_ready-step :
    (x y : ProjectionUpdateOp) (d : Doc)
    → is_ready x d ≡ true
    → is_new x (step y d) ≡ true
    → is_ready x (step y d) ≡ true
unfolding is_ready is_new
is_ready-step (ProjectionUpdateOp.insert id after ch) y d h k =
    ground (arith, has_anchor-step after y d)
is_ready-step (ProjectionUpdateOp.delete target) y d h k = refl

pub is_ready-is_new : (x : ProjectionUpdateOp) (d : Doc) → is_ready x d ≡ true → is_new x d ≡ true
unfolding is_ready is_new
is_ready-is_new (ProjectionUpdateOp.insert id after ch) d h = ground arith
is_ready-is_new (ProjectionUpdateOp.delete target) d h = refl

-- an update that is ready after another is not made by it
pub is_new_swap :
    (x y : ProjectionUpdateOp) (d : Doc)
    → is_ready y d ≡ true
    → is_new x (step y d) ≡ true
    → is_new y (step x d) ≡ true
unfolding is_ready is_new step
is_new_swap (ProjectionUpdateOp.insert id after ch) (ProjectionUpdateOp.insert id' after' ch') d h
      k =
    ground (
      arith,
      eqp_comm id id',
      has_item-put_item id after' (record { id = id'; ch = ch'; deleted = d.pending id' }) d.items,
      has_item-put_item id' after (record { id = id; ch = ch; deleted = d.pending id }) d.items,
    )
is_new_swap (ProjectionUpdateOp.insert id after ch) (ProjectionUpdateOp.delete t) d h k = refl
is_new_swap (ProjectionUpdateOp.delete s) (ProjectionUpdateOp.insert id' after' ch') d h k =
    ground (arith, has_item-mark_deleted id' s d.items)
is_new_swap (ProjectionUpdateOp.delete s) (ProjectionUpdateOp.delete t) d h k = refl
