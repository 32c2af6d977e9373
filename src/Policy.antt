-- ===== src/Policy.antt =====
-- core/crdt/src/policy.rs: scoped write policies and the glob matcher behind them.
pub mod Patterns
pub mod Globs
pub mod Writers
use nodalmerge.Base.{
  ℕ, Bool, true, false, ◌&&◌, ◌||◌, not, Bytes, List, [], ◌∷◌, ◌==◌, if◌then◌else◌, contains,
}

abbrev pub star : ℕ
star = b'*'

abbrev pub slash : ℕ
slash = b'/'

-- the loop of the `**` branch: the rest of the pattern is tried at every position
unfoldable pub try_anywhere : (Bytes → Bool) → Bytes → Bool
try_anywhere rest [] = rest []
try_anywhere rest (c ∷ txt) = rest (c ∷ txt) || try_anywhere rest txt

-- the loop of the `*` branch: it stops at a separator
unfoldable pub try_segment : (Bytes → Bool) → Bytes → Bool
try_segment rest [] = rest []
try_segment rest (c ∷ txt) = rest (c ∷ txt) || (not (c == slash) && try_segment rest txt)

-- the literal branch
unfoldable pub literal : ℕ → (Bytes → Bool) → Bytes → Bool
literal pc rest [] = false
literal pc rest (tc ∷ txt) = tc == pc && rest txt

unfoldable pub is_empty : Bytes → Bool
is_empty [] = true
is_empty (c ∷ txt) = false

unfoldable pub glob_matches_inner : Bytes → Bytes → Bool
unfolding try_anywhere try_segment literal is_empty
glob_matches_inner [] txt = is_empty txt
glob_matches_inner (c ∷ []) txt = elim (c == star) [
  | true ↦ try_segment (glob_matches_inner []) txt
  | false ↦ literal c (glob_matches_inner []) txt
]
glob_matches_inner (c ∷ d ∷ []) txt = elim (c == star) [
  | true ↦ elim (d == star) [
    | true ↦ try_anywhere (glob_matches_inner []) txt
    | false ↦ try_segment (glob_matches_inner (d ∷ [])) txt
  ]
  | false ↦ literal c (glob_matches_inner (d ∷ [])) txt
]
glob_matches_inner (c ∷ d ∷ e ∷ pat) txt = elim (c == star) [
  | true ↦ elim (d == star) [
    | true ↦ elim (e == slash) [
      | true ↦ try_anywhere (glob_matches_inner pat) txt
      | false ↦ try_anywhere (glob_matches_inner (e ∷ pat)) txt
    ]
    | false ↦ try_segment (glob_matches_inner (d ∷ e ∷ pat)) txt
  ]
  | false ↦ literal c (glob_matches_inner (d ∷ e ∷ pat)) txt
]

pub data PolicyDefault : Type 0 where
  allow_all deny_all : PolicyDefault

pub record PolicyRule : Type 0 where
  pub path_glob : Bytes
  pub can_write_keys : List ℕ
  pub can_read_keys : List ℕ
  pub can_derive_keys : List ℕ

pub record Policy : Type 0 where
  pub rules : List PolicyRule
  pub default : PolicyDefault

-- `Policy::default()`
abbrev pub open_policy : Policy
open_policy = record { rules = []; default = PolicyDefault.allow_all }

unfoldable pub is_allow_all : PolicyDefault → Bool
is_allow_all PolicyDefault.allow_all = true
is_allow_all PolicyDefault.deny_all = false

-- the loop of `can_write` over the rules
unfoldable pub rules_allow : List PolicyRule → PolicyDefault → Bytes → ℕ → Bool
unfolding is_allow_all
rules_allow [] default key author = is_allow_all default
rules_allow (rule ∷ rules) default key author =
    if glob_matches_inner rule.path_glob key
    then contains rule.can_write_keys author
    else rules_allow rules default key author

unfoldable pub can_write : Policy → Bytes → ℕ → Bool
unfolding rules_allow
can_write policy key author = rules_allow policy.rules policy.default key author
