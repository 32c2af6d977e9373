-- ===== src/ListCrdt/Perms.antt =====
-- Two collections of items that answer every lookup alike hold the same items, in some order, and
-- show the same entries.
use mathlib.Core.List.{Permᴰ}
use mathlib.Core.Path.{subst₂}
use nodalmerge.Base.{
  ℕ, ◌≡◌, refl, sym, ap, subst, ◌∙◌, Bytes, List, [], ◌∷◌, Option, none, some, arith, inl, inr,
  ◌==◌, ==_iff, if◌then◌else◌, Bool-cases,
}
use nodalmerge.Base.Folds.{Permᴰ-refl, Permᴰ-symm}
use nodalmerge.ListCrdt.{ItemState, Entry, visible_position, ItemMap, visible_entries}
use nodalmerge.ListCrdt.Items.{lookup_item, without, IsAbsent, IsItemMap, without-absent}

lookup-absent : (j : ℕ) (items : ItemMap) → IsAbsent j items → lookup_item j items ≡ none
unfolding lookup_item
lookup-absent j [] h = refl
lookup-absent j ((k, entry) ∷ items) h = ground (arith, lookup-absent j items h.1)

lookup-without :
    (k j : ℕ) (items : ItemMap)
    → lookup_item j (without k items) ≡ (if k == j then none else lookup_item j items)
unfolding lookup_item without
lookup-without k j [] = ground arith
lookup-without k j ((i, entry) ∷ items) = ground (arith, lookup-without k j items)

without-IsAbsent : (k j : ℕ) (items : ItemMap) → IsAbsent j items → IsAbsent j (without k items)
unfolding without
without-IsAbsent k j [] h = tt
without-IsAbsent k j ((i, entry) ∷ items) h = elim (Bool-cases (i == k)) [
  | inl hit ↦ rw hit (without-IsAbsent k j items h.1)
  | inr miss ↦ rw miss (h.0, without-IsAbsent k j items h.1)
]

without-IsItemMap : (k : ℕ) (items : ItemMap) → IsItemMap items → IsItemMap (without k items)
unfolding without
without-IsItemMap k [] h = tt
without-IsItemMap k ((i, entry) ∷ items) h = elim (Bool-cases (i == k)) [
  | inl hit ↦ rw hit (without-IsItemMap k items h.1)
  | inr miss ↦ rw miss (without-IsAbsent k i items h.0, without-IsItemMap k items h.1)
]

-- an item that is found can be listed first
extract :
    (k : ℕ) (entry : ItemState) (items : ItemMap)
    → IsItemMap items
    → lookup_item k items ≡ some entry
    → Permᴰ items ((k, entry) ∷ without k items)
unfolding lookup_item without
extract k entry [] h found = absurd (ground arith)
extract k entry ((i, other) ∷ items) h found = elim (Bool-cases (i == k)) [
  | inl hit ↦
      let same : i ≡ k = (==_iff i k).0 hit in
      let absent : IsAbsent k items = subst (λ j. IsAbsent j items) same h.0 in
      let here : ◌≡◌ {A = ℕ × ItemState} (i, other) (k, entry) = ground arith in
      rw (hit, without-absent k items absent) (Permᴰ.cons here (Permᴰ-refl items))
  | inr miss ↦ rw miss (
      Permᴰ.trans (Permᴰ.cons refl (extract k entry items h.1 (ground arith)))
        (Permᴰ.swap refl refl))
]

rest_same :
    (k : ℕ) (entry : ItemState) (xs ys : ItemMap)
    → IsAbsent k xs
    → (j : ℕ) → lookup_item j ((k, entry) ∷ xs) ≡ lookup_item j ys
    → lookup_item j xs ≡ lookup_item j (without k ys)
unfolding lookup_item
rest_same k entry xs ys absent j same = elim (Bool-cases (k == j)) [
  | inl hit ↦
      let e : k ≡ j = (==_iff k j).0 hit in
      ap (λ i. lookup_item i xs) (sym e)
      ∙ lookup-absent k xs absent
      ∙ sym (lookup-without k j ys ∙ rw hit)
  | inr miss ↦ rw (lookup-without k j ys, miss) (ground arith)
]

-- two collections that answer the same hold the same items
pub same_items-perm :
    (xs ys : ItemMap)
    → IsItemMap xs
    → IsItemMap ys
    → ((j : ℕ) → lookup_item j xs ≡ lookup_item j ys)
    → Permᴰ xs ys
unfolding lookup_item
same_items-perm [] [] hx hy same = Permᴰ.nil
same_items-perm [] ((k, entry) ∷ ys) hx hy same = absurd (ground (arith, same k))
same_items-perm ((k, entry) ∷ xs) ys hx hy same =
    let rest : (j : ℕ) → lookup_item j xs ≡ lookup_item j (without k ys) =
      λ j. rest_same k entry xs ys hx.0 j (same j) in
    Permᴰ.trans
      (Permᴰ.cons refl (same_items-perm xs (without k ys) hx.1 (without-IsItemMap k ys hy) rest))
      (Permᴰ-symm (extract k entry ys hy (sym (same k) ∙ ground arith)))

visible_cons : ℕ → Option Bytes → List Entry → List Entry
visible_cons j none l = l
visible_cons j (some p) l = record { position = p; item_id = j } ∷ l

visible_entries-cons :
    (j : ℕ) (entry : ItemState) (items : ItemMap)
    → visible_entries ((j, entry) ∷ items)
      ≡ visible_cons j (visible_position entry) (visible_entries items)
unfolding visible_entries visible_cons
visible_entries-cons j entry items = ground arith

visible_cons-perm :
    (j : ℕ) (v : Option Bytes) {l m : List Entry}
    → Permᴰ l m
    → Permᴰ (visible_cons j v l) (visible_cons j v m)
unfolding visible_cons
visible_cons-perm j none p = p
visible_cons-perm j (some x) p = Permᴰ.cons refl p

visible_cons-swap :
    (j k : ℕ) (v w : Option Bytes) (l : List Entry)
    → Permᴰ (visible_cons j v (visible_cons k w l)) (visible_cons k w (visible_cons j v l))
unfolding visible_cons
visible_cons-swap j k none w l = Permᴰ-refl _
visible_cons-swap j k (some x) none l = Permᴰ-refl _
visible_cons-swap j k (some x) (some y) l = Permᴰ.swap refl refl

pub visible_entries-perm :
    {xs ys : ItemMap} → Permᴰ xs ys → Permᴰ (visible_entries xs) (visible_entries ys)
visible_entries-perm Permᴰ.nil = Permᴰ-refl _
visible_entries-perm (Permᴰ.cons {a = (j, entry)} {l₁ = l₁} {l₂ = l₂} e p) =
    subst (λ b. Permᴰ (visible_entries ((j, entry) ∷ l₁)) (visible_entries (b ∷ l₂))) e
      (rw (visible_entries-cons j entry l₁, visible_entries-cons j entry l₂)
        (visible_cons-perm j (visible_position entry) (visible_entries-perm p)))
visible_entries-perm (Permᴰ.swap {a = (j, x)} {b = (k, y)} {l = l} e f) =
    subst₂ (λ a b. Permᴰ (visible_entries ((j, x) ∷ (k, y) ∷ l)) (visible_entries (a ∷ b ∷ l))) f e
      (subst₂ Permᴰ
        (sym (
          visible_entries-cons j x ((k, y) ∷ l)
          ∙ ap (visible_cons j (visible_position x)) (visible_entries-cons k y l)))
        (sym (
          visible_entries-cons k y ((j, x) ∷ l)
          ∙ ap (visible_cons k (visible_position y)) (visible_entries-cons j x l)))
        (visible_cons-swap j k (visible_position x) (visible_position y) (visible_entries l)))
visible_entries-perm (Permᴰ.trans p q) =
    Permᴰ.trans (visible_entries-perm p) (visible_entries-perm q)
