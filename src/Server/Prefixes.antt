-- ===== src/Server/Prefixes.antt =====
-- server/common.rs: the groups of a user that the denylist leaves, and the expression for the names
-- that belong to the user; and the answer to `ListValidNamePrefixes` of server/session_handler.rs.
-- The list's cache has no effect on the answers of `matches`, and is not passed on here.
pub mod Listed
mod Tests
use muscl.Prelude.{Bool, true, false, Option, none, some, List, [], ◌∷◌, ◌++◌}
use muscl.Prelude.Text.{Text, codes}
use muscl.Denylist.{Group, GroupDenylist, Regexes, denies}
use muscl.Validation.{UnixUser}

module _ (from_name : Text → Option Group) (regexes : Regexes) (denylist : GroupDenylist) where
  -- The closure of `filter_map`.
  unfoldable pub filtered_group : Text → Option Text
  filtered_group group_name = elim (from_name group_name) [
    | some group ↦ elim (denies regexes denylist group) [ true ↦ none | false ↦ some group.name ]
    | none ↦ some group_name
  ]

  unfoldable pub filter_groups : List Text → List Text
  filter_groups [] = []
  filter_groups (g ∷ gs) =
      let rest = filter_groups gs in
      elim (filtered_group g) [ none ↦ rest | some name ↦ name ∷ rest ]

  abbrev pub get_user_filtered_groups : UnixUser → List Text
  get_user_filtered_groups user = filter_groups user.groups

  abbrev pub list_valid_name_prefixes : UnixUser → List Text
  list_valid_name_prefixes user = user.username ∷ get_user_filtered_groups user

  -- `regex::escape`
  abbrev escape : Text → Text
  escape [] = []
  escape (c ∷ s) = regexes.escape c ++ escape s

  -- `.map(|group| regex::escape(group)).collect::<Vec<_>>().join("|")`
  abbrev join_escaped : List Text → Text
  join_escaped [] = []
  join_escaped (g ∷ []) = escape g
  join_escaped (g ∷ h ∷ gs) = escape g ++ (codes "|" ++ join_escaped (h ∷ gs))

  abbrev regex_of_groups : Text → List Text → Text
  regex_of_groups username [] = escape username ++ codes "_.+"
  regex_of_groups username (g ∷ gs) =
      codes "(" ++ (escape username ++ (codes "|" ++ (join_escaped (g ∷ gs) ++ codes ")_.+")))

  pub create_user_group_matching_regex : UnixUser → Text
  unfolding filter_groups filtered_group
  create_user_group_matching_regex user =
      regex_of_groups user.username (get_user_filtered_groups user)
