-- ===== src/Server/Prefixes/Tests.antt =====
-- Runs of the group filter, and its theorems at sample users.
use muscl.Prelude.{
  ◌≡◌, ◌↔◌, refl, true, false, Option, none, some, [], ◌∷◌, ◌++◌, Has, Bool-cases, inl, inr, ok, ap,
  sym,
}
use muscl.Prelude.Text.{Text, codes, text_eq}
use muscl.Denylist.{Group, GroupDenylist, new_denylist, matches}
use muscl.Denylist.Engine.{engine}
use muscl.Validation.{UnixUser, validate_authorization_by_unix_user}
use muscl.Server.Prefixes.{
  filtered_group, filter_groups, list_valid_name_prefixes, create_user_group_matching_regex,
}
use muscl.Server.Prefixes.Listed.{Left, filter_groups_exact, listed_prefixes_own}

abbrev alice : UnixUser
alice = record { username = codes "alice"; groups = codes "wheel" ∷ codes "web" ∷ [] }

-- The system has the group wheel.
abbrev groups : Text → Option Group
groups s = elim (text_eq (codes "wheel") s) [
  | true ↦ some (record { name = s; gid = 10 })
  | false ↦ none
]

abbrev no_wheel : GroupDenylist
no_wheel = record new_denylist { gids = 10 ∷ [] }

listed : list_valid_name_prefixes groups engine no_wheel alice ≡ codes "alice" ∷ codes "web" ∷ []
unfolding filter_groups filtered_group matches text_eq
listed = refl

expression : create_user_group_matching_regex groups engine no_wheel alice ≡ codes "(alice|web)_.+"
unfolding create_user_group_matching_regex filter_groups filtered_group matches text_eq
expression = refl

filter_groups_exact_example :
    Has (codes "web") (filter_groups groups engine no_wheel alice.groups)
    ↔ ((g : Text) × Has g alice.groups × Left groups engine no_wheel g (codes "web"))
filter_groups_exact_example = filter_groups_exact groups engine no_wheel alice.groups (codes "web")

own_names : (g : Text) (group : Group) → groups g ≡ some group → group.name ≡ g
unfolding text_eq
own_names g group h = elim (Bool-cases (text_eq (codes "wheel") g)) [
  | inl e ↦
      let same : some (record { name = g; gid = 10 }) ≡ some group = rw e at h in
      let same' : record { name = g; gid = 10 } ≡ group = cc in
      sym (ap (λ (x : Group). x.name) same')
  | inr e ↦ let no : none ≡ some group = rw e at h in absurd (cc)
]

web_listed : Has (codes "web") (list_valid_name_prefixes groups engine no_wheel alice)
unfolding filter_groups filtered_group matches text_eq
web_listed = inr (inl refl)

listed_prefixes_own_example :
    validate_authorization_by_unix_user ((codes "web" ++ codes "_") ++ codes "db") alice ≡ ok tt
listed_prefixes_own_example =
    listed_prefixes_own groups engine no_wheel alice (codes "web") (codes "db") own_names web_listed
