-- ===== src/Denylist/Tests.antt =====
-- Runs of the patterns and the denylist, and the theorems about them at sample values.
use muscl.Prelude.{
  ◌≡◌, refl, ℕ, Option, some, List, ◌++◌, true, false, ◌||◌, ◌&&◌, none, [], ◌∷◌, any, inl,
}
use muscl.Prelude.Text.{Text, codes, text_eq}
use muscl.Prelude.Words.{trim_start, trim_end}
use muscl.Denylist.{
  Group, GroupDenylist, new_denylist, insert_gid, insert_name_pattern, normalize, clone, contains,
  matches, to_regex, denies, compile_all, is_empty, size,
}
use muscl.Denylist.File.{before_comment, split_colon, parse_u32, parse_group_denylist}
use muscl.Denylist.Lines.{pattern_line_denies}
use muscl.Denylist.Pattern.{glob, glob-normalize}
use muscl.Denylist.Cache.{IsFresh, matches-IsFresh, compiles, matches_exact}
use muscl.Denylist.Regex.{
  Part, start_of_text, end_of_expression, many, character, read_expression, search,
}
use muscl.Denylist.Engine.{engine, engine-FollowsSyntax}

normalize_runs :
    (normalize (codes "***") ≡ codes "*")
    × (normalize (codes "*?*?*") ≡ codes "??*")
    × (normalize (codes "admin**?*svc") ≡ codes "admin?*svc")
unfolding normalize
normalize_runs = (refl, refl, refl)

glob_runs :
    (glob (codes "svc-?db") (codes "svc-1db") ≡ true)
    × (glob (codes "svc-?db") (codes "svc-12db") ≡ false)
    × (glob (codes "admin*") (codes "badmin") ≡ false)
unfolding glob
glob_runs = (refl, refl, refl)

glob-normalize_example :
    glob (normalize (codes "a**?")) (codes "abc") ≡ glob (codes "a**?") (codes "abc")
glob-normalize_example = glob-normalize (codes "a**?") (codes "abc")

abbrev admins : GroupDenylist
admins = record {
  gids = 7 ∷ [];
  name_patterns = codes "admin*" ∷ [];
  compiled_name_patterns = none;
}

abbrev admin_group : Group
admin_group = record { name = codes "admins"; gid = 100 }

built :
    insert_name_pattern (normalize (codes "admin**")) (insert_gid 7 (insert_gid 7 new_denylist))
    ≡ admins
unfolding insert_name_pattern insert_gid normalize
built = refl

sizes : (size (insert_gid 3 admins) ≡ 3) × (is_empty (clone admins) ≡ false)
unfolding size insert_gid is_empty clone
sizes = (refl, refl)

matches-IsFresh_example :
    let (answer, d) = matches engine admins admin_group in
    (answer ≡ (
      contains admins.gids admin_group.gid
      || any (λ r. r admin_group.name) (compile_all engine admins.name_patterns)))
    × (d.gids ≡ admins.gids)
    × (d.name_patterns ≡ admins.name_patterns)
    × IsFresh engine d
matches-IsFresh_example = matches-IsFresh engine admins admin_group (inl refl)

matches_exact_example : (matches engine admins admin_group).0 ≡ (
    contains admins.gids admin_group.gid
    || any (λ p. compiles engine p && glob p admin_group.name) admins.name_patterns)
matches_exact_example = matches_exact engine admins admin_group engine-FollowsSyntax (inl refl)

abbrev no_gid : ℕ → Option Group
no_gid n = none

abbrev find_admins : Text → Option Group
find_admins s = some admin_group

parsed :
    parse_group_denylist no_gid find_admins engine
      (codes "# groups" ∷ codes "  group:admin** # all" ∷ codes "group:admins" ∷ codes "gid:x" ∷ [])
    ≡ record { gids = 100 ∷ []; name_patterns = codes "admin*" ∷ []; compiled_name_patterns = none }
unfolding parse_group_denylist before_comment split_colon parse_u32 normalize insert_gid
    insert_name_pattern trim_start trim_end text_eq to_regex read_expression
parsed = refl

numbers :
    (parse_u32 (codes "+1001") ≡ some 1001)
    × (parse_u32 (codes "4294967296") ≡ none)
    × (parse_u32 (codes "+") ≡ none)
unfolding parse_u32
numbers = (refl, refl, refl)

-- The parts of the expression of `adm*`.
abbrev adm_parts : List Part
adm_parts =
    start_of_text ∷ character b'a' ∷ character b'd' ∷ character b'm' ∷ many ∷ end_of_expression ∷ []

adm_compiles : to_regex engine (normalize (codes "adm*")) ≡ some (search adm_parts)
unfolding to_regex normalize read_expression
adm_compiles = refl

pattern_line_denies_example :
    denies engine
      (parse_group_denylist no_gid find_admins engine
        (codes "gid:x" ∷ (codes "group:" ++ codes "adm*") ∷ []))
      admin_group
    ≡ true
unfolding glob
pattern_line_denies_example =
    pattern_line_denies no_gid find_admins engine (codes "gid:x" ∷ []) [] (codes "adm*")
      (search adm_parts) admin_group engine-FollowsSyntax
      ((refl, (refl, (refl, (refl, tt)))), (refl, (refl, (refl, (refl, tt))))) refl adm_compiles
      refl
