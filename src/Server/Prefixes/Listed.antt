-- ===== src/Server/Prefixes/Listed.antt =====
-- The listed prefixes against the check of ownership.
use muscl.Prelude.{
  ◌≡◌, ◌↔◌, refl, ap, ◌∙◌, sym, false, Option, none, some, List, [], ◌∷◌, ◌++◌, Has, Bool-cases,
  Option-cases, ◌⊎◌, inl, inr, ok,
}
use muscl.Prelude.Text.{Text, codes}
use muscl.Denylist.{Group, GroupDenylist, Regexes, denies}
use muscl.Validation.{UnixUser, validate_authorization_by_unix_user}
use muscl.Validation.Exact.{validate_authorization_exact}
use muscl.Server.Prefixes.{filtered_group, filter_groups, list_valid_name_prefixes}

module _ (from_name : Text → Option Group) (regexes : Regexes) (denylist : GroupDenylist) where
  -- A group of the user's is left under the name `x`.
  abbrev pub Left : Text → Text → Type 0
  Left g x =
      ((from_name g ≡ none) × (x ≡ g))
      ⊎ ((group : Group) × (from_name g ≡ some group)
          × (denies regexes denylist group ≡ false)
          × (x ≡ group.name))

  Left-of : (g x : Text) → filtered_group from_name regexes denylist g ≡ some x → Left g x
  unfolding filtered_group
  Left-of g x h = elim (Option-cases (from_name g)) [
    | inl absent ↦ let e : some g ≡ some x = rw (absent, filtered_group) at h in inl (absent, cc)
    | inr (group, there) ↦ elim (Bool-cases (denies regexes denylist group)) [
      | inl denied ↦
          let e : none ≡ some x = rw denied at (rw (there, filtered_group) at h) in absurd (cc)
      | inr allowed ↦
          let e : some group.name ≡ some x = rw allowed at (rw (there, filtered_group) at h) in
          inr (group, there, allowed, cc)
    ]
  ]

  of_Left : (g x : Text) → Left g x → filtered_group from_name regexes denylist g ≡ some x
  unfolding filtered_group
  of_Left g x (inl (absent, e)) = rw (absent, filtered_group) (ap (λ y. some y) (sym e))
  of_Left g x (inr (group, there, allowed, e)) =
      rw (there, filtered_group) (rw allowed (ap (λ y. some y) (sym e)))

  -- The groups that are left are exactly those that the system does not know, and those that it
  -- knows and the denylist does not deny, by the name that the system has for them.
  pub filter_groups_exact :
      (groups : List Text) (x : Text)
      → Has x (filter_groups from_name regexes denylist groups)
        ↔ ((g : Text) × Has g groups × Left g x)
  unfolding filter_groups
  filter_groups_exact [] x = (λ there. absurd there, λ (g, there, rest). absurd there)
  filter_groups_exact (h ∷ groups) x =
      let later = filter_groups_exact groups x in
      elim (Option-cases (filtered_group from_name regexes denylist h)) [
        | inl e ↦ (
          λ there. let (g, m, l) = later.0 (rw (e, filter_groups) at there) in (g, inr m, l),
          λ (g, m, l).
              rw (e, filter_groups)
                (elim m [
                  | inl same ↦
                      let found : filtered_group from_name regexes denylist h ≡ some x =
                        ap (filtered_group from_name regexes denylist) (sym same) ∙ of_Left g x l in
                      absurd (cc)
                  | inr m' ↦ later.1 (g, m', l)
                ]),
        )
        | inr (y, e) ↦ (
          λ there.
              let there' : (x ≡ y) ⊎ Has x (filter_groups from_name regexes denylist groups) =
                rw (e, filter_groups) at there in
              elim there' [
                | inl same ↦ (h, inl refl, Left-of h x (e ∙ ap (λ z. some z) (sym same)))
                | inr m ↦ let (g, m', l) = later.0 m in (g, inr m', l)
              ],
          λ (g, m, l).
              rw (e, filter_groups)
                (elim m [
                  | inl same ↦
                      let found : filtered_group from_name regexes denylist h ≡ some x =
                        ap (filtered_group from_name regexes denylist) (sym same) ∙ of_Left g x l in
                      inl (cc)
                  | inr m' ↦ inr (later.1 (g, m', l))
                ]),
        )
      ]

  -- If the system finds a group under its own name only, then every listed prefix is one: a name
  -- that extends it by an underscore passes the check of ownership.
  pub listed_prefixes_own :
      (user : UnixUser) (x r : Text)
      → ((g : Text) (group : Group) → from_name g ≡ some group → group.name ≡ g)
      → Has x (list_valid_name_prefixes from_name regexes denylist user)
      → validate_authorization_by_unix_user ((x ++ codes "_") ++ r) user ≡ ok tt
  unfolding validate_authorization_by_unix_user
  listed_prefixes_own user x r own there =
      (validate_authorization_exact ((x ++ codes "_") ++ r) (user.username ∷ user.groups)).1
        (x, elim there [ inl same ↦ inl same | inr m ↦ inr (of_group m) ], (r, refl))
    where
      of_group : Has x (filter_groups from_name regexes denylist user.groups) → Has x user.groups
      of_group m =
          let (g, there, l) = (filter_groups_exact user.groups x).0 m in
          elim l [
            | inl (absent, same) ↦ rw same there
            | inr (group, found, allowed, same) ↦ rw (same ∙ own g group found) there
          ]
