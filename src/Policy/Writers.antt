-- ===== src/Policy/Writers.antt =====
-- `can_write`: the first rule whose glob matches decides, else the default.
use nodalmerge.Base.{
  ℕ, ◌≡◌, ◌↔◌, ◌⊎◌, inl, inr, refl, ap, true, Bytes, List, [], ◌∷◌, ◌++◌, arith, All, Bool-cases,
  contains,
}
use nodalmerge.Policy.{
  PolicyRule, PolicyDefault, Policy, glob_matches_inner, rules_allow, can_write, star, slash,
}
use nodalmerge.Policy.Patterns.{written, without_slashes}
use nodalmerge.Policy.Globs.{Denotes, glob_matches_iff, anywhere-join}

-- the rule's glob, without the `/` right after each `**`, describes the key
abbrev pub Covers : Bytes → PolicyRule → Type 0
Covers key rule = Denotes (written (without_slashes rule.path_glob)) key

-- no rule of the list covers the key
abbrev pub NoneCovers : Bytes → List PolicyRule → Type 0
NoneCovers key rules = All (λ rule. ¬ Covers key rule) rules

-- some rule is the first to cover the key, and it lists the author
abbrev pub FirstCoverLists : List PolicyRule → Bytes → ℕ → Type 0
FirstCoverLists rules key author =
    (earlier : List PolicyRule) × (rule : PolicyRule) × (later : List PolicyRule) × (rules
      ≡ earlier ++ rule ∷ later)
    × NoneCovers key earlier
    × Covers key rule
    × (contains rule.can_write_keys author ≡ true)

module _ (default : PolicyDefault) (key : Bytes) (author : ℕ) where
  allows→cover :
      (rules : List PolicyRule)
      → rules_allow rules default key author ≡ true
      → FirstCoverLists rules key author
        ⊎ (NoneCovers key rules × (default ≡ PolicyDefault.allow_all))
  unfolding rules_allow
  allows→cover [] h = inr (tt, ground arith)
  allows→cover (rule ∷ rules) h = elim (Bool-cases (glob_matches_inner rule.path_glob key)) [
    | inl hit ↦ inl ([], rule, rules, refl, tt, (glob_matches_iff _ _).0 hit, ground arith)
    | inr miss ↦
        let covers : ¬ Covers key rule = λ d. cc ((glob_matches_iff _ _).1 d) in
        elim (allows→cover rules (ground arith)) [
          | inl (earlier, r, later, eq, clean, here, listed) ↦
              inl (rule ∷ earlier, r, later, ap (◌∷◌ rule) eq, (covers, clean), here, listed)
          | inr (clean, d) ↦ inr ((covers, clean), d)
        ]
  ]

  cover→allows :
      (earlier : List PolicyRule) (rule : PolicyRule) (later : List PolicyRule)
      → NoneCovers key earlier
      → Covers key rule
      → contains rule.can_write_keys author ≡ true
      → rules_allow (earlier ++ rule ∷ later) default key author ≡ true
  unfolding rules_allow
  cover→allows [] rule later clean here listed =
      rw ((glob_matches_iff rule.path_glob key).1 here) listed
  cover→allows (r ∷ earlier) rule later clean here listed =
      elim (Bool-cases (glob_matches_inner r.path_glob key)) [
        | inl hit ↦ absurd (clean.0 ((glob_matches_iff _ _).0 hit))
        | inr miss ↦ rw miss (cover→allows earlier rule later clean.1 here listed)
      ]

  none→allows :
      (rules : List PolicyRule)
      → NoneCovers key rules
      → default ≡ PolicyDefault.allow_all
      → rules_allow rules default key author ≡ true
  unfolding rules_allow
  none→allows [] clean d = rw d
  none→allows (r ∷ rules) clean d = elim (Bool-cases (glob_matches_inner r.path_glob key)) [
    | inl hit ↦ absurd (clean.0 ((glob_matches_iff _ _).0 hit))
    | inr miss ↦ rw miss (none→allows rules clean.1 d)
  ]

-- An author may write a key exactly when the first rule whose glob describes the key lists the
-- author, or no rule describes the key and the policy's default is to allow.
pub can_write_iff :
    (policy : Policy) (key : Bytes) (author : ℕ)
    → (can_write policy key author ≡ true) ↔ (
        FirstCoverLists policy.rules key author
        ⊎ (NoneCovers key policy.rules × (policy.default ≡ PolicyDefault.allow_all)))
unfolding can_write
can_write_iff policy key author = (
  allows→cover policy.default key author policy.rules,
  λ h. elim h [
    | inl (earlier, rule, later, eq, clean, here, listed) ↦
        rw eq (cover→allows policy.default key author earlier rule later clean here listed)
    | inr (clean, d) ↦ none→allows policy.default key author policy.rules clean d
  ],
)

-- A pattern `**/p` accepts every text that ends in a text accepted by `p`, also where no `/`
-- stands before that end.
pub glob-double_star-slash :
    (pat run rest : Bytes)
    → glob_matches_inner pat rest ≡ true
    → glob_matches_inner (star ∷ star ∷ slash ∷ pat) (run ++ rest) ≡ true
unfolding glob_matches_inner
glob-double_star-slash pat run rest h = anywhere-join (glob_matches_inner pat) run rest h
