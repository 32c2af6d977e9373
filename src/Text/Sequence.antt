-- ===== src/Text/Sequence.antt =====
-- The item sequence of core/crdt/src/text.rs: inserts and deletes that do not wait for each other
-- commute.
use nodalmerge.Base.{
  ℕ, ◌≡◌, refl, sym, ap, ◌∙◌, Bool, true, false, ◌||◌, List, [], ◌∷◌, Option, none, some, inl, inr,
  arith, if◌then◌else◌, Bool-cases,
}
use nodalmerge.Base.Prio.{gtp, eqp, gtp_trans, gtp_asym, gtp_total, eqp→eq, eqp_refl, eqp_comm}
use nodalmerge.Op.{OpId}
use nodalmerge.Text.{
  Item, insert_at, has_item, scan_from, scan_after, integration_loc, mark_deleted,
}

-- the scan and the insertion in one
unfoldable pub put_scan : Item → List Item → List Item
put_scan a [] = a ∷ []
put_scan a (x ∷ items) = if gtp x.id a.id then x ∷ put_scan a items else a ∷ x ∷ items

unfoldable pub put_after : OpId → Item → List Item → List Item
put_after parent a [] = a ∷ []
put_after parent a (x ∷ items) =
    x ∷ (if eqp x.id parent then put_scan a items else put_after parent a items)

unfoldable pub put_item : Option OpId → Item → List Item → List Item
put_item none a items = put_scan a items
put_item (some parent) a items = put_after parent a items

insert_at-scan_from :
    (a : Item) (items : List Item) → insert_at (scan_from a.id items) a items ≡ put_scan a items
unfolding insert_at scan_from put_scan
insert_at-scan_from a [] = refl
insert_at-scan_from a (x ∷ items) = elim (Bool-cases (gtp x.id a.id)) [
  | inl larger ↦ rw larger (ap (λ l. x ∷ l) (insert_at-scan_from a items))
  | inr smaller ↦ rw smaller refl
]

insert_at-scan_after :
    (parent : OpId) (a : Item) (items : List Item)
    → insert_at (scan_after parent a.id items) a items ≡ put_after parent a items
unfolding insert_at scan_after put_after
insert_at-scan_after parent a [] = refl
insert_at-scan_after parent a (x ∷ items) = elim (Bool-cases (eqp x.id parent)) [
  | inl here ↦ rw here (ap (λ l. x ∷ l) (insert_at-scan_from a items))
  | inr other ↦ rw other (ap (λ l. x ∷ l) (insert_at-scan_after parent a items))
]

pub insert_at-integration_loc :
    (after : Option OpId) (a : Item) (items : List Item)
    → insert_at (integration_loc a.id after items) a items ≡ put_item after a items
unfolding integration_loc put_item
insert_at-integration_loc none a items = insert_at-scan_from a items
insert_at-integration_loc (some parent) a items = insert_at-scan_after parent a items

put_scan-put_scan :
    (a b : Item) (items : List Item)
    → eqp a.id b.id ≡ false
    → put_scan a (put_scan b items) ≡ put_scan b (put_scan a items)
unfolding put_scan
put_scan-put_scan a b [] differ =
    ground (arith, gtp_total a.id b.id, eqp_refl a.id, gtp_asym a.id b.id)
put_scan-put_scan a b (x ∷ items) differ = ground (
  arith,
  put_scan-put_scan a b items differ,
  gtp_total a.id b.id,
  gtp_asym a.id b.id,
  gtp_trans x.id a.id b.id,
  gtp_trans x.id b.id a.id,
  eqp_refl a.id,
)

-- a scan past an anchor that is another item
put_scan-put_after :
    (parent : OpId) (a b : Item) (items : List Item)
    → has_item parent items ≡ true
    → eqp a.id parent ≡ false
    → eqp a.id b.id ≡ false
    → put_scan a (put_after parent b items) ≡ put_after parent b (put_scan a items)
unfolding put_scan put_after has_item
put_scan-put_after parent a b [] known other differ = absurd (ground arith)
put_scan-put_after parent a b (x ∷ items) known other differ =
    ground (arith, put_scan-put_after parent a b items, put_scan-put_scan a b items differ)

put_after-put_after :
    (p q : OpId) (a b : Item) (items : List Item)
    → has_item p items ≡ true
    → has_item q items ≡ true
    → eqp a.id q ≡ false
    → eqp b.id p ≡ false
    → eqp a.id b.id ≡ false
    → put_after p a (put_after q b items) ≡ put_after q b (put_after p a items)
unfolding put_after has_item
put_after-put_after p q a b [] known known' na nb differ = absurd (ground arith)
put_after-put_after p q a b (x ∷ items) known known' na nb differ = ground (
  arith,
  put_after-put_after p q a b items,
  put_scan-put_scan a b items differ,
  put_scan-put_after q a b items,
  put_scan-put_after p b a items,
  eqp_comm a.id b.id,
)

-- an anchor is the start or an item
unfoldable pub has_anchor : Option OpId → List Item → Bool
has_anchor none items = true
has_anchor (some parent) items = has_item parent items

-- a missing id is not an anchor
missing :
    (id anchor : OpId) (items : List Item)
    → has_item id items ≡ false
    → has_item anchor items ≡ true
    → eqp id anchor ≡ false
missing id anchor items none_there there = elim (Bool-cases (eqp id anchor)) [
  | inr other ↦ other
  | inl same ↦
      let e : has_item id items ≡ has_item anchor items =
        ap (λ j. has_item j items) (eqp→eq id anchor same) in
      absurd (ground arith)
]

-- Two inserts whose anchors are there commute, if their ids differ and neither is there before.
pub put_item-put_item :
    (after after' : Option OpId) (a b : Item) (items : List Item)
    → has_anchor after items ≡ true
    → has_anchor after' items ≡ true
    → has_item a.id items ≡ false
    → has_item b.id items ≡ false
    → eqp a.id b.id ≡ false
    → put_item after a (put_item after' b items) ≡ put_item after' b (put_item after a items)
unfolding put_item has_anchor
put_item-put_item none none a b items h h' k k' differ = put_scan-put_scan a b items differ
put_item-put_item none (some q) a b items h h' k k' differ =
    put_scan-put_after q a b items h' (missing a.id q items k h') differ
put_item-put_item (some p) none a b items h h' k k' differ =
    sym (put_scan-put_after p b a items h (missing b.id p items k' h) (eqp_comm b.id a.id ∙ differ))
put_item-put_item (some p) (some q) a b items h h' k k' differ =
    put_after-put_after p q a b items h h' (missing a.id q items k h') (missing b.id p items k' h)
      differ

-- a tombstone does not move
mark_deleted-put_scan :
    (target : OpId) (a : Item) (items : List Item)
    → eqp a.id target ≡ false
    → mark_deleted target (put_scan a items) ≡ put_scan a (mark_deleted target items)
unfolding mark_deleted put_scan
mark_deleted-put_scan target a [] other = rw other refl
mark_deleted-put_scan target a (x ∷ items) other =
    ground (arith, mark_deleted-put_scan target a items other)

mark_deleted-put_after :
    (target p : OpId) (a : Item) (items : List Item)
    → eqp a.id target ≡ false
    → mark_deleted target (put_after p a items) ≡ put_after p a (mark_deleted target items)
unfolding mark_deleted put_after
mark_deleted-put_after target p a [] other = rw other refl
mark_deleted-put_after target p a (x ∷ items) other = ground (
  arith,
  mark_deleted-put_after target p a items other,
  mark_deleted-put_scan target a items other,
)

pub mark_deleted-put_item :
    (target : OpId) (after : Option OpId) (a : Item) (items : List Item)
    → eqp a.id target ≡ false
    → mark_deleted target (put_item after a items) ≡ put_item after a (mark_deleted target items)
unfolding put_item
mark_deleted-put_item target none a items other = mark_deleted-put_scan target a items other
mark_deleted-put_item target (some p) a items other = mark_deleted-put_after target p a items other

pub mark_deleted_comm :
    (s t : OpId) (items : List Item)
    → mark_deleted s (mark_deleted t items) ≡ mark_deleted t (mark_deleted s items)
unfolding mark_deleted
mark_deleted_comm s t [] = refl
mark_deleted_comm s t (x ∷ items) = ground (arith, mark_deleted_comm s t items)

mark_own_scan :
    (id : OpId) (ch : ℕ) (flag : Bool) (items : List Item)
    → has_item id items ≡ false
    → mark_deleted id (put_scan (record { id = id; ch = ch; deleted = flag }) items)
      ≡ put_scan (record { id = id; ch = ch; deleted = true }) items
unfolding mark_deleted put_scan has_item
mark_own_scan id ch flag [] new = rw (eqp_refl id) refl
mark_own_scan id ch flag (x ∷ items) new =
    ground (arith, mark_own_scan id ch flag items, eqp_refl id)

mark_own_after :
    (p id : OpId) (ch : ℕ) (flag : Bool) (items : List Item)
    → has_item id items ≡ false
    → mark_deleted id (put_after p (record { id = id; ch = ch; deleted = flag }) items)
      ≡ put_after p (record { id = id; ch = ch; deleted = true }) items
unfolding mark_deleted put_after has_item
mark_own_after p id ch flag [] new = rw (eqp_refl id) refl
mark_own_after p id ch flag (x ∷ items) new =
    ground (arith, mark_own_after p id ch flag items, mark_own_scan id ch flag items)

-- the id of an insert that is deleted next
pub mark_deleted-put_item_own :
    (after : Option OpId) (id : OpId) (ch : ℕ) (flag : Bool) (items : List Item)
    → has_item id items ≡ false
    → mark_deleted id (put_item after (record { id = id; ch = ch; deleted = flag }) items)
      ≡ put_item after (record { id = id; ch = ch; deleted = true }) items
unfolding put_item
mark_deleted-put_item_own none id ch flag items new = mark_own_scan id ch flag items new
mark_deleted-put_item_own (some p) id ch flag items new = mark_own_after p id ch flag items new

has_item-put_scan :
    (j : OpId) (a : Item) (items : List Item)
    → has_item j (put_scan a items) ≡ (eqp a.id j || has_item j items)
unfolding has_item put_scan
has_item-put_scan j a [] = refl
has_item-put_scan j a (x ∷ items) = ground (arith, has_item-put_scan j a items)

has_item-put_after :
    (j p : OpId) (a : Item) (items : List Item)
    → has_item j (put_after p a items) ≡ (eqp a.id j || has_item j items)
unfolding has_item put_after
has_item-put_after j p a [] = refl
has_item-put_after j p a (x ∷ items) =
    ground (arith, has_item-put_after j p a items, has_item-put_scan j a items)

pub has_item-put_item :
    (j : OpId) (after : Option OpId) (a : Item) (items : List Item)
    → has_item j (put_item after a items) ≡ (eqp a.id j || has_item j items)
unfolding put_item
has_item-put_item j none a items = has_item-put_scan j a items
has_item-put_item j (some p) a items = has_item-put_after j p a items

pub has_item-mark_deleted :
    (j target : OpId) (items : List Item)
    → has_item j (mark_deleted target items) ≡ has_item j items
unfolding has_item mark_deleted
has_item-mark_deleted j target [] = refl
has_item-mark_deleted j target (x ∷ items) = ground (arith, has_item-mark_deleted j target items)
