-- ===== src/Base/Sort.antt =====
-- `sort` by a total comparison, as insertion sort: the standard library's sorts return the one
-- ascending arrangement of the same elements. `insert_new` is `BTreeSet::insert`.
use Prim.Native.Nat.{Ordering}
use Prim.Native.Nat.Ordering.{lt, eq, gt}
use mathlib.Core.Path.{◌≡◌, refl, ap, ap₂, ◌∙◌}
use mathlib.Core.List.{List, [], ◌∷◌, Permᴰ}
use native.Mathlib.Omega.{arith}
use nodalmerge.Base.Lists.{All}

-- the laws of the derived `Ord`
pub record IsTotal {ℓ} {A : Type ℓ} (cmp : A → A → Ordering) : Type ℓ where
  pub cmp_refl : (a : A) → cmp a a ≡ eq
  pub eq_of_cmp : (a b : A) → cmp a b ≡ eq → a ≡ b
  pub lt_of_gt : (a b : A) → cmp a b ≡ gt → cmp b a ≡ lt
  pub gt_of_lt : (a b : A) → cmp a b ≡ lt → cmp b a ≡ gt
  pub lt_trans : (a b c : A) → cmp a b ≡ lt → cmp b c ≡ lt → cmp a c ≡ lt

module _ {ℓ} {A : Type ℓ} (cmp : A → A → Ordering) where
  unfoldable pub insert : A → List A → List A
  insert a [] = a ∷ []
  insert a (b ∷ l) = elim (cmp a b) [ gt ↦ b ∷ insert a l | _ ↦ a ∷ b ∷ l ]

  unfoldable pub sort : List A → List A
  unfolding insert
  sort [] = []
  sort (a ∷ l) = insert a (sort l)

  -- an equal element is not inserted again
  unfoldable pub insert_new : A → List A → List A
  insert_new a [] = a ∷ []
  insert_new a (b ∷ l) = elim (cmp a b) [ lt ↦ a ∷ b ∷ l | eq ↦ b ∷ l | gt ↦ b ∷ insert_new a l ]

  -- `BTreeSet::remove`
  unfoldable pub remove : A → List A → List A
  remove a [] = []
  remove a (b ∷ l) = elim (cmp a b) [ lt ↦ b ∷ l | eq ↦ l | gt ↦ b ∷ remove a l ]

  abbrev pub IsSorted : List A → Type 0
  IsSorted [] = Unit
  IsSorted (a ∷ []) = Unit
  IsSorted (a ∷ b ∷ l) = (cmp a b ≡ gt → ⊥) × IsSorted (b ∷ l)

  abbrev pub IsStrict : List A → Type 0
  IsStrict [] = Unit
  IsStrict (a ∷ l) = All (λ b. cmp a b ≡ lt) l × IsStrict l

module _ {ℓ} {A : Type ℓ} (cmp : A → A → Ordering) (total : IsTotal cmp) where
  open total use {cmp_refl, eq_of_cmp, lt_of_gt, gt_of_lt, lt_trans}

  pub insert-insert :
      (a b : A) (l : List A) → insert cmp a (insert cmp b l) ≡ insert cmp b (insert cmp a l)
  unfolding insert
  insert-insert a b [] =
      ground (
        arith,
        eq_of_cmp a b,
        eq_of_cmp b a,
        lt_of_gt a b,
        gt_of_lt a b,
        lt_of_gt b a,
        gt_of_lt b a,
      )
  insert-insert a b (c ∷ l) = ground (
    arith,
    insert-insert a b l,
    eq_of_cmp a b,
    eq_of_cmp b a,
    lt_of_gt a b,
    gt_of_lt a b,
    lt_of_gt b a,
    gt_of_lt b a,
    eq_of_cmp a c,
    eq_of_cmp b c,
    lt_of_gt a c,
    lt_of_gt b c,
    lt_trans a c b,
    lt_trans b c a,
  )

  pub sort-perm : {xs ys : List A} → Permᴰ xs ys → sort cmp xs ≡ sort cmp ys
  unfolding sort
  sort-perm Permᴰ.nil = refl
  sort-perm (Permᴰ.cons {a = a} {l₂ = l₂} e p) =
      ap (insert cmp a) (sort-perm p) ∙ ap (λ x. insert cmp x (sort cmp l₂)) e
  sort-perm (Permᴰ.swap {a = a} {b = b} {l = l} e f) =
      insert-insert a b (sort cmp l) ∙ ap₂ (λ x y. insert cmp x (insert cmp y (sort cmp l))) f e
  sort-perm (Permᴰ.trans p q) = sort-perm p ∙ sort-perm q

  insert-IsSorted : (a : A) (l : List A) → IsSorted cmp l → IsSorted cmp (insert cmp a l)
  unfolding insert
  insert-IsSorted a [] h = tt
  insert-IsSorted a (b ∷ []) h = ground (arith, lt_of_gt a b)
  insert-IsSorted a (b ∷ c ∷ l) h = ground (arith, lt_of_gt a b, insert-IsSorted a (c ∷ l))

  pub sort-IsSorted : (l : List A) → IsSorted cmp (sort cmp l)
  unfolding sort
  sort-IsSorted [] = tt
  sort-IsSorted (a ∷ l) = insert-IsSorted a (sort cmp l) (sort-IsSorted l)

  All-insert {κ} : (P : A → Type κ) (a : A) (l : List A) → P a → All P l → All P (insert cmp a l)
  unfolding insert
  All-insert P a [] p h = (p, tt)
  All-insert P a (b ∷ l) p h =
      elim (cmp a b) as (λ o. All P (elim o [ gt ↦ b ∷ insert cmp a l | _ ↦ a ∷ b ∷ l ])) [
        | gt ↦ (h.0, All-insert P a l p h.1)
        | lt ↦ (p, h)
        | eq ↦ (p, h)
      ]

  -- sorting keeps what holds of all elements
  pub All-sort {κ} : (P : A → Type κ) (l : List A) → All P l → All P (sort cmp l)
  unfolding sort
  All-sort P [] h = tt
  All-sort P (a ∷ l) h = All-insert P a (sort cmp l) h.0 (All-sort P l h.1)

  insert-nil : (a : A) → insert cmp a [] ≡ a ∷ []
  unfolding insert
  insert-nil a = refl

  insert-cons : (a b : A) (l : List A) → (cmp a b ≡ gt → ⊥) → insert cmp a (b ∷ l) ≡ a ∷ b ∷ l
  unfolding insert
  insert-cons a b l h = ground arith

  pub sort_of_IsSorted : (l : List A) → IsSorted cmp l → sort cmp l ≡ l
  unfolding sort
  sort_of_IsSorted [] h = refl
  sort_of_IsSorted (a ∷ []) h = insert-nil a
  sort_of_IsSorted (a ∷ b ∷ l) h =
      ap (insert cmp a) (sort_of_IsSorted (b ∷ l) h.1) ∙ insert-cons a b l h.0

  pub sort-sort : (l : List A) → sort cmp (sort cmp l) ≡ sort cmp l
  sort-sort l = sort_of_IsSorted (sort cmp l) (sort-IsSorted l)
