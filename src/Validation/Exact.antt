-- ===== src/Validation/Exact.antt =====
-- Which requests pass the validation: the exact conditions on names, prefixes and the denylist.
use muscl.Prelude.{
  ◌≡◌, ◌≢◌, ◌↔◌, refl, ◌≤◌, true, false, Option, some, List, [], ◌∷◌, ◌++◌, All, Has, keep, all,
  is_empty_list, Bool-cases, Option-cases, ◌⊎◌, inl, inr, Result, ok, err, map_err, ◌>>◌, arith,
}
use muscl.Prelude.Text.{Text, codes, len, text_eq, text_eq_iff, starts_with_iff}
use muscl.Denylist.{Group, GroupDenylist, Regexes, denies}
use muscl.Validation.{
  UnixUser, DbOrUser, name, AuthorizationError, ValidationError, name_validation_error,
  authorization_error, is_name_char, validate_name, is_owned_by, validate_authorization_by_prefixes,
  validate_authorization_by_unix_user, validate_authorization_by_group_denylist,
  validate_db_or_user_request,
}

all→All : (s : Text) → all is_name_char s ≡ true → All (λ c. is_name_char c ≡ true) s
all→All [] h = tt
all→All (c ∷ s) h = elim (Bool-cases (is_name_char c)) [
  | inl e ↦ (e, all→All s (rw (e, all) at h))
  | inr e ↦ absurd (ground arith)
]

All→all : (s : Text) → All (λ c. is_name_char c ≡ true) s → all is_name_char s ≡ true
All→all [] h = refl
All→all (c ∷ s) h = rw (h.0, all) (All→all s h.1)

-- A name that the servers accept.
pub record IsName (s : Text) : Type 0 where
  pub non_empty : s ≢ []
  pub short : len s ≤ 64
  pub plain : All (λ c. is_name_char c ≡ true) s

-- `validate_name` accepts exactly the texts that are not empty, have at most 64 bytes, and consist
-- of ASCII letters and digits, underscores and dashes.
pub validate_name_exact : (s : Text) → (validate_name s ≡ ok tt) ↔ IsName s
unfolding validate_name
validate_name_exact [] = (λ h. absurd (ground arith), λ v. absurd (v.non_empty refl))
validate_name_exact (c ∷ s) = (
  λ h. record { non_empty = λ e. cc; short = ground arith; plain = all→All (c ∷ s) (ground arith) },
  λ v. ground (arith, All→all (c ∷ s) v.plain, v.short),
)

-- The text is a prefix of the list, an underscore, and a rest.
abbrev pub Owns : List Text → Text → Type 0
Owns prefixes s = (p : Text) × Has p prefixes × ((r : Text) × (s ≡ (p ++ codes "_") ++ r))

keep-Owns :
    (s : Text) (prefixes : List Text)
    → (is_empty_list (keep (is_owned_by s) prefixes) ≡ false) ↔ Owns prefixes s
keep-Owns s [] = (λ h. absurd (ground arith), λ (p, there, owned). absurd there)
keep-Owns s (p ∷ prefixes) = elim (Bool-cases (is_owned_by s p)) [
  | inl e ↦
      (λ h. (p, inl refl, (starts_with_iff s (p ++ codes "_")).0 e), λ owns. rw (e, keep) refl)
  | inr e ↦ (
    λ h.
        let (q, there, owned) = (keep-Owns s prefixes).0 (rw (e, keep) at h) in
        (q, inr there, owned),
    λ (q, there, owned).
        rw (e, keep)
          (elim there [
            | inl same ↦
                absurd (ground (arith, (starts_with_iff s (p ++ codes "_")).1 (rw same at owned)))
            | inr later ↦ (keep-Owns s prefixes).1 (q, later, owned)
          ]),
  )
]

not_empty_of_Owns : (prefixes : List Text) (s : Text) → Owns prefixes s → is_empty_list s ≡ false
not_empty_of_Owns prefixes [] (p, there, (r, e)) = absurd (no_text p r e)
  where
    no_text : (p r : Text) → [] ≡ (p ++ codes "_") ++ r → ⊥
    no_text [] r e = cc
    no_text (c ∷ p) r e = cc
not_empty_of_Owns prefixes (c ∷ s) owns = refl

-- `validate_authorization_by_prefixes` accepts exactly the texts that are one of the prefixes, an
-- underscore and a rest.
pub validate_authorization_exact :
    (s : Text) (prefixes : List Text)
    → (validate_authorization_by_prefixes s prefixes ≡ ok tt) ↔ Owns prefixes s
unfolding validate_authorization_by_prefixes
validate_authorization_exact s prefixes = (
  λ h. (keep-Owns s prefixes).0 (ground arith),
  λ owns. rw (not_empty_of_Owns prefixes s owns) (rw ((keep-Owns s prefixes).1 owns) refl),
)

>>-ok : (m k : Result ValidationError (Unit {0})) → ((m >> k) ≡ ok tt) ↔ ((m ≡ ok tt) × (k ≡ ok tt))
>>-ok (ok tt) k = (λ h. (refl, h), λ both. both.1)
>>-ok (err e) k = (λ h. absurd (cc), λ both. absurd (cc))

pub map_err-ok :
    {E F : Type 0} (f : E → F) (r : Result E (Unit {0})) → (map_err f r ≡ ok tt) ↔ (r ≡ ok tt)
map_err-ok f (ok tt) = (λ h. refl, λ h. refl)
map_err-ok f (err e) = (λ h. absurd (cc), λ h. absurd (cc))

module _ (from_name : Text → Option Group) (regexes : Regexes) where
  -- The name is the user's own, or the group of that very name, if there is one, is not denied.
  abbrev pub NotDenied : Text → UnixUser → GroupDenylist → Type 0
  NotDenied s u denylist =
      (u.username ≡ s) ⊎ ((g : Group) → from_name s ≡ some g → denies regexes denylist g ≡ false)

  denylist_exact :
      (s : Text) (u : UnixUser) (denylist : GroupDenylist)
      → (validate_authorization_by_group_denylist from_name regexes s u denylist ≡ ok tt)
        ↔ NotDenied s u denylist
  unfolding validate_authorization_by_group_denylist
  denylist_exact s u denylist = elim (Bool-cases (text_eq u.username s)) [
    | inl own ↦ rw own (λ h. inl ((text_eq_iff u.username s).0 own), λ h. refl)
    | inr other ↦ rw other (elim (Option-cases (from_name s)) [
      | inl absent ↦ rw absent (λ h. inr (λ g e. absurd (cc)), λ h. refl)
      | inr (group, there) ↦ rw there (
        λ h. inr (λ g e. let same : group ≡ g = cc in rw (← same) (ground arith)),
        λ h. elim h [
          | inl own ↦ absurd (ground (arith, (text_eq_iff u.username s).1 own))
          | inr allowed ↦ rw (allowed group refl) refl
        ],
      )
    ])
  ]

  -- `validate_db_or_user_request` accepts exactly the requests whose name is well formed, is owned
  -- through the user's name or one of the user's groups, and is the user's own name or not the name
  -- of a denied group.
  pub validate_request_exact :
      (x : DbOrUser) (u : UnixUser) (denylist : GroupDenylist)
      → (validate_db_or_user_request from_name regexes x u denylist ≡ ok tt)
        ↔ (IsName (name x) × Owns (u.username ∷ u.groups) (name x) × NotDenied (name x) u denylist)
  unfolding validate_db_or_user_request validate_authorization_by_unix_user
  validate_request_exact x u denylist = (
    λ h.
        let (named, rest) = (>>-ok (map_err name_validation_error (validate_name s)) later).0 h in
        let (owned, allowed) = (>>-ok middle last).0 rest in
        (
          (validate_name_exact s).0 ((map_err-ok name_validation_error (validate_name s)).0 named),
          (validate_authorization_exact s prefixes).0 (
              (map_err-ok authorization_error (validate_authorization_by_prefixes s prefixes)).0
                owned),
          (denylist_exact s u denylist).0 ((map_err-ok authorization_error denied).0 allowed),
        ),
    λ (named, owned, allowed). (>>-ok (map_err name_validation_error (validate_name s)) later).1 (
      (map_err-ok name_validation_error (validate_name s)).1 ((validate_name_exact s).1 named),
      (>>-ok middle last).1 (
        (map_err-ok authorization_error (validate_authorization_by_prefixes s prefixes)).1
            ((validate_authorization_exact s prefixes).1 owned),
        (map_err-ok authorization_error denied).1 ((denylist_exact s u denylist).1 allowed),
      ),
    ),
  )
    where
      s : Text
      s = name x

      prefixes : List Text
      prefixes = u.username ∷ u.groups

      denied : Result AuthorizationError (Unit {0})
      denied = validate_authorization_by_group_denylist from_name regexes (name x) u denylist

      middle : Result ValidationError (Unit {0})
      middle =
          map_err authorization_error
            (validate_authorization_by_prefixes (name x) (u.username ∷ u.groups))

      last : Result ValidationError (Unit {0})
      last =
          map_err authorization_error
            (validate_authorization_by_group_denylist from_name regexes (name x) u denylist)

      later : Result ValidationError (Unit {0})
      later = middle >> last
