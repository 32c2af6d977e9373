-- ===== src/Token/Messages.antt =====
-- What the signed message of a room token pins down, and what it does not.
use mathlib.Core.List.{append_assoc}
use nodalmerge.Base.{
  ℕ, ◌^◌, ◌<◌, ◌≡◌, ◌≢◌, refl, sym, ap, subst, ◌∙◌, Bytes, List, [], ◌∷◌, ◌++◌, arith, All, length,
}
use nodalmerge.Base.Endian.{le_bytes, split_length, length-le_bytes, le_bytes-injective}
use nodalmerge.Token.{domain, newline, join, token_message}

-- a separator that does not occur before it splits a string in one way
split_free :
    (c : ℕ) (r r' s s' : Bytes)
    → All (λ b. b ≢ c) r
    → All (λ b. b ≢ c) r'
    → r ++ (c ∷ s) ≡ r' ++ (c ∷ s')
    → (r ≡ r') × (s ≡ s')
split_free c [] [] s s' h k e = (refl, ground arith)
split_free c [] (b ∷ r') s s' h k e = absurd (k.0 (ground arith))
split_free c (a ∷ r) [] s s' h k e = absurd (h.0 (ground arith))
split_free c (a ∷ r) (b ∷ r') s s' h k e =
    let (same, rest) = split_free c r r' s s' h.1 k.1 (ground arith) in (ground arith, rest)

-- a capability that is not empty and holds no line break
abbrev pub IsPlain : Bytes → Type 0
IsPlain s = (s ≢ []) × All (λ b. b ≢ newline) s

not_free : (c : ℕ) (r s : Bytes) → ¬ All (λ b. b ≢ c) (r ++ (c ∷ s))
not_free c [] s h = h.0 refl
not_free c (b ∷ r) s h = not_free c r s h.1

join-injective :
    (xs ys : List Bytes) → All IsPlain xs → All IsPlain ys → join xs ≡ join ys → xs ≡ ys
unfolding join
join-injective [] [] h k e = refl
join-injective [] (y ∷ []) h k e = absurd (k.0.0 (sym e))
join-injective [] ([] ∷ z ∷ ys) h k e = absurd (k.0.0 refl)
join-injective [] ((b ∷ y) ∷ z ∷ ys) h k e = absurd (ground arith)
join-injective (x ∷ []) [] h k e = absurd (h.0.0 e)
join-injective ([] ∷ z ∷ xs) [] h k e = absurd (h.0.0 refl)
join-injective ((b ∷ x) ∷ z ∷ xs) [] h k e = absurd (ground arith)
join-injective (x ∷ []) (y ∷ []) h k e = ap (λ b. b ∷ []) e
join-injective (x ∷ []) (y ∷ z ∷ ys) h k e =
    absurd (not_free newline y (join (z ∷ ys)) (subst (All (λ b. b ≢ newline)) e h.0.1))
join-injective (x ∷ z ∷ xs) (y ∷ []) h k e =
    absurd (not_free newline x (join (z ∷ xs)) (subst (All (λ b. b ≢ newline)) (sym e) k.0.1))
join-injective (x ∷ z ∷ xs) (y ∷ u ∷ ys) h k e =
    let (same, rest) = split_free newline x y (join (z ∷ xs)) (join (u ∷ ys)) h.0.1 k.0.1 e in
    let tail : z ∷ xs ≡ u ∷ ys = join-injective (z ∷ xs) (u ∷ ys) h.1 k.1 rest in cc

tail_eq : {b : ℕ} {s t : Bytes} → b ∷ s ≡ b ∷ t → s ≡ t
tail_eq e = ground arith

-- Two tokens with one signed message are for the same room, peer and expiry and carry the same
-- capabilities, where room names hold no zero byte, public keys have 32 bytes, expiry times fit
-- 64 bits, and no capability is empty or holds a line break.
pub token_message-injective :
    (r r' p p' : Bytes) (n n' : ℕ) (xs ys : List Bytes)
    → All (λ b. b ≢ 0) r
    → All (λ b. b ≢ 0) r'
    → length p ≡ 32
    → length p' ≡ 32
    → n < 2 ^ 64
    → n' < 2 ^ 64
    → All IsPlain xs
    → All IsPlain ys
    → token_message r p n xs ≡ token_message r' p' n' ys
    → (r ≡ r') × (p ≡ p') × (n ≡ n') × (xs ≡ ys)
unfolding token_message
token_message-injective r r' p p' n n' xs ys fr fr' lp lp' bn bn' plain plain' e =
    let timed : Bytes = le_bytes 8 n ++ (0 ∷ join xs) in
    let timed' : Bytes = le_bytes 8 n' ++ (0 ∷ join ys) in
    let body : 0 ∷ (r ++ (0 ∷ (p ++ timed))) ≡ 0 ∷ (r' ++ (0 ∷ (p' ++ timed'))) =
      (split_length domain domain _ _ refl e).1 in
    let (room, keyed) = split_free 0 r r' (p ++ timed) (p' ++ timed') fr fr' (tail_eq body) in
    let (key, rest) = split_length p p' timed timed' (lp ∙ sym lp') keyed in
    let (time, listed) =
      split_length (le_bytes 8 n) (le_bytes 8 n') (0 ∷ join xs) (0 ∷ join ys)
        (length-le_bytes 8 n ∙ sym (length-le_bytes 8 n')) rest in
    (
      room,
      key,
      le_bytes-injective 8 n n' (omega arith) (omega arith) time,
      join-injective xs ys plain plain' (tail_eq listed),
    )

join_break :
    (a b : Bytes) (caps : List Bytes) → join ((a ++ (newline ∷ b)) ∷ caps) ≡ join (a ∷ b ∷ caps)
unfolding join
join_break a b [] = refl
join_break a b (c ∷ caps) = rw append_assoc

-- Without that condition it does not: an empty capability beside no other leaves the message as it
-- is for a token with no capability at all, and a line break inside one makes it two.
pub token_message_collisions :
    (room peer : Bytes) (expiry : ℕ) (a b : Bytes) (caps : List Bytes)
    → (token_message room peer expiry ([] ∷ []) ≡ token_message room peer expiry [])
      × (token_message room peer expiry ((a ++ (newline ∷ b)) ∷ caps)
          ≡ token_message room peer expiry (a ∷ b ∷ caps))
unfolding token_message join
token_message_collisions room peer expiry a b caps = (refl, rw (join_break a b caps))
