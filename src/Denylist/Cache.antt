-- ===== src/Denylist/Cache.antt =====
-- The cache of compiled expressions does not change what the denylist matches, and what it matches
-- is what its ids and patterns say, given that the crate `regex` follows its documented syntax.
use muscl.Prelude.{
  ℕ, ◌≡◌, ap, refl, ◌∙◌, Bool, ◌||◌, ◌&&◌, true, false, Option, Option-cases, none, some, List, [],
  ◌∷◌, any, Bool-cases, inl, inr, ◌⊎◌,
}
use muscl.Prelude.Text.{Text}
use muscl.Denylist.{
  Group, Regexes, GroupNamePattern, to_regex, GroupDenylist, contains, insert_gid,
  insert_name_pattern, clone, compile_all, compiled_name_pattern_regexes, matches,
}
use muscl.Denylist.Pattern.{glob}
use muscl.Denylist.Regex.{FollowsSyntax, to_regex-glob}

module _ (regexes : Regexes) where
  -- A filled cache holds the expressions of the patterns that are in the list now.
  abbrev pub IsFresh : GroupDenylist → Type 0
  IsFresh d =
      (d.compiled_name_patterns ≡ none)
      ⊎ (d.compiled_name_patterns ≡ some (compile_all regexes d.name_patterns))

  pub insert_gid-IsFresh : (gid : ℕ) (d : GroupDenylist) → IsFresh d → IsFresh (insert_gid gid d)
  unfolding insert_gid
  insert_gid-IsFresh gid d h = h

  pub insert_name_pattern-IsFresh :
      (p : GroupNamePattern) (d : GroupDenylist) → IsFresh (insert_name_pattern p d)
  unfolding insert_name_pattern
  insert_name_pattern-IsFresh p d = inl refl

  pub clone-IsFresh : (d : GroupDenylist) → IsFresh (clone d)
  unfolding clone
  clone-IsFresh d = inl refl

  -- With a fresh cache, `matches` answers as if it compiled every pattern anew, leaves the ids and
  -- the patterns as they are, and leaves the cache fresh.
  pub matches-IsFresh :
      (d : GroupDenylist) (group : Group)
      → IsFresh d
      → let (answer, d') = matches regexes d group in
        (answer ≡ (
          contains d.gids group.gid
          || any (λ r. r group.name) (compile_all regexes d.name_patterns)))
        × (d'.gids ≡ d.gids)
        × (d'.name_patterns ≡ d.name_patterns)
        × IsFresh d'
  unfolding matches
  matches-IsFresh d group h = elim (Bool-cases (contains d.gids group.gid)) [
    | inl e ↦ rw e (refl, refl, refl, h)
    | inr e ↦ rw e (elim h [
      | inl empty ↦ rw (empty, compiled_name_pattern_regexes) (refl, refl, refl, inr refl)
      | inr full ↦ rw (full, compiled_name_pattern_regexes) (refl, refl, refl, inr full)
    ])
  ]

abbrev pub is_some : {A : Type 0} → Option A → Bool
is_some none = false
is_some (some a) = true

-- The pattern compiles.
abbrev pub compiles : Regexes → GroupNamePattern → Bool
compiles regexes p = is_some (to_regex regexes p)

any-compile_all :
    (regexes : Regexes) (ps : List GroupNamePattern) (s : Text)
    → FollowsSyntax regexes
    → any (λ r. r s) (compile_all regexes ps) ≡ any (λ p. compiles regexes p && glob p s) ps
any-compile_all regexes [] s follows = refl
any-compile_all regexes (p ∷ ps) s follows = elim (Option-cases (to_regex regexes p)) [
  | inl e ↦ rw (e, compile_all) (any-compile_all regexes ps s follows)
  | inr (r, e) ↦
      rw (e, compile_all)
        (rw (to_regex-glob regexes follows p r e s)
          (rw (any-compile_all regexes ps s follows) refl))
]

-- With a fresh cache, and a crate `regex` that follows its documented syntax, a group matches the
-- denylist exactly when its id is listed or one of the patterns compiles and stands for its name.
pub matches_exact :
    (regexes : Regexes) (d : GroupDenylist) (group : Group)
    → FollowsSyntax regexes
    → IsFresh regexes d
    → (matches regexes d group).0 ≡ (
        contains d.gids group.gid
        || any (λ p. compiles regexes p && glob p group.name) d.name_patterns)
matches_exact regexes d group follows fresh =
    (matches-IsFresh regexes d group fresh).0
    ∙ ap (λ b. contains d.gids group.gid || b)
        (any-compile_all regexes d.name_patterns group.name follows)
