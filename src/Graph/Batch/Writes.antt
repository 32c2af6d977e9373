-- ===== src/Graph/Batch/Writes.antt =====
-- The flags that the chunks of a batch of core/crdt/src/graph.rs write, by position.
use nodalmerge.Base.{
  ℕ, zero, suc, ◌≡◌, refl, ap, ◌∙◌, Bool, true, false, ◌||◌, List, [], ◌∷◌, ◌++◌, arith, inl, inr,
  ◌==◌, ==_iff, if◌then◌else◌, All, Bool-cases,
}
use nodalmerge.Graph.Batch.{chunks_from, flags, write, write_all}

-- every pair of a list of writes carries the flag that `g` has at its position
abbrev pub Follows : (ℕ → Bool) → List (ℕ × Bool) → Type 0
Follows g l = All (λ (w : ℕ × Bool). w.1 ≡ g w.0) l

-- a pair of the list has this position
unfoldable pub covers {ℓ} : {A : Type ℓ} → List (ℕ × A) → ℕ → Bool
covers [] j = false
covers ((i, a) ∷ l) j = i == j || covers l j

shadow :
    (g : ℕ → Bool) (i j : ℕ) (flag covered rest : Bool)
    → flag ≡ g i
    → (if covered then g j else (if i == j then flag else rest))
      ≡ (if i == j || covered then g j else rest)
shadow g i j flag true rest h = ground arith
shadow g i j flag false rest h = elim (Bool-cases (i == j)) [
  | inl hit ↦ rw hit (h ∙ ap g ((==_iff i j).0 hit))
  | inr miss ↦ rw miss
]

-- after a list of writes that follow `g`, the positions that it covers hold what `g` has
write-covers :
    (g : ℕ → Bool) (l : List (ℕ × Bool)) (r : ℕ → Bool) (j : ℕ)
    → Follows g l
    → write l r j ≡ (if covers l j then g j else r j)
unfolding write covers
write-covers g [] r j h = refl
write-covers g ((i, flag) ∷ l) r j h =
    write-covers g l (λ k. if i == k then flag else r k) j h.1
    ∙ shadow g i j flag (covers l j) (r j) h.0

unfoldable pub covers_any {ℓ} : {A : Type ℓ} → List (List (ℕ × A)) → ℕ → Bool
covers_any [] j = false
covers_any (chunk ∷ chunks) j = covers chunk j || covers_any chunks j

pub write_all-covers :
    (g : ℕ → Bool) (chunks : List (List (ℕ × Bool))) (r : ℕ → Bool) (j : ℕ)
    → All (Follows g) chunks
    → write_all chunks r j ≡ (if covers_any chunks j then g j else r j)
unfolding write_all covers_any
write_all-covers g [] r j h = refl
write_all-covers g (chunk ∷ chunks) r j h =
    ground (arith, write_all-covers g chunks (write chunk r) j h.1, write-covers g chunk r j h.0)

module _ {ℓ} {A : Type ℓ} where
  pub covers-append : (l m : List (ℕ × A)) (j : ℕ) → covers (l ++ m) j ≡ (covers l j || covers m j)
  unfolding covers
  covers-append [] m j = refl
  covers-append ((i, a) ∷ l) m j = ground (arith, covers-append l m j)

  pub covers-flags : (f : A → Bool) (l : List (ℕ × A)) (j : ℕ) → covers (flags f l) j ≡ covers l j
  unfolding covers flags
  covers-flags f [] j = refl
  covers-flags f ((i, a) ∷ l) j = ground (arith, covers-flags f l j)

  pub flags-Follows :
      (g : ℕ → Bool) (f : A → Bool) (l : List (ℕ × A))
      → All (λ (p : ℕ × A). f p.1 ≡ g p.0) l
      → Follows g (flags f l)
  unfolding flags
  flags-Follows g f [] h = tt
  flags-Follows g f ((i, a) ∷ l) h = (h.0, flags-Follows g f l h.1)

  pub covers-chunks_from :
      (size room : ℕ) (current l : List (ℕ × A)) (j : ℕ)
      → covers_any (chunks_from size room current l) j ≡ (covers current j || covers l j)
  unfolding chunks_from covers_any covers
  covers-chunks_from size room current [] j = ground arith
  covers-chunks_from size zero current ((i, a) ∷ l) j =
      ground (arith, covers-chunks_from size size ((i, a) ∷ []) l j)
  covers-chunks_from size (suc room) current ((i, a) ∷ l) j = ground (
    arith,
    covers-chunks_from size room (current ++ (i, a) ∷ []) l j,
    covers-append current ((i, a) ∷ []) j,
  )

pub All-++ {ℓ κ} : {A : Type ℓ} (Q : A → Type κ) (l m : List A) → All Q l → All Q m → All Q (l ++ m)
All-++ Q [] m h k = k
All-++ Q (a ∷ l) m h k = (h.0, All-++ Q l m h.1 k)

pub All-chunks_from {ℓ κ} :
    {A : Type ℓ} (Q : A → Type κ) (size room : ℕ) (current l : List A)
    → All Q current
    → All Q l
    → All (All Q) (chunks_from size room current l)
unfolding chunks_from
All-chunks_from Q size room current [] h k = (h, tt)
All-chunks_from Q size zero current (a ∷ l) h k =
    (h, All-chunks_from Q size size (a ∷ []) l (k.0, tt) k.1)
All-chunks_from Q size (suc room) current (a ∷ l) h k =
    All-chunks_from Q size room (current ++ a ∷ []) l (All-++ Q current (a ∷ []) h (k.0, tt)) k.1
