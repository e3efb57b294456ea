-- ===== src/Validation/Gap.antt =====
-- Two consequences of the order of the checks: one error that no request can meet, and groups on
-- the denylist that still serve as prefixes.
use muscl.Prelude.{
  ◌≡◌, ◌≢◌, Option, none, [], ◌∷◌, ◌++◌, Has, inr, Result, ok, err, arith, map_err, ◌>>◌,
}
use muscl.Prelude.Text.{Text, codes}
use muscl.Denylist.{Group, GroupDenylist, Regexes}
use muscl.Validation.{
  UnixUser, DbOrUser, name, string_empty, ValidationError, name_validation_error,
  authorization_error, validate_name, validate_authorization_by_prefixes,
  validate_authorization_by_unix_user, validate_authorization_by_group_denylist,
  validate_db_or_user_request,
}
use muscl.Validation.Exact.{IsName, validate_request_exact}

module _ (from_name : Text → Option Group) (regexes : Regexes) where
  -- The error `StringEmpty` is never the result of a request: an empty name is refused before.
  pub string_empty_unreachable :
      (x : DbOrUser) (u : UnixUser) (denylist : GroupDenylist)
      → validate_db_or_user_request from_name regexes x u denylist
        ≢ err (authorization_error string_empty)
  unfolding validate_db_or_user_request validate_name validate_authorization_by_unix_user
      validate_authorization_by_prefixes validate_authorization_by_group_denylist
  string_empty_unreachable x u denylist h = go (name x) h
    where
      go :
          (s : Text)
          → ◌≢◌ {A = Result ValidationError (Unit {0})}
              (map_err name_validation_error (validate_name s)
                >> (map_err authorization_error (validate_authorization_by_unix_user s u)
                    >> map_err authorization_error
                        (validate_authorization_by_group_denylist from_name regexes s u denylist)))
              (err (authorization_error string_empty))
      go [] e = ground arith
      go (c ∷ s) e = ground arith

  -- A name that a group owns is accepted, whatever the denylist says of that group, as long as no
  -- group of the system is named like the whole name.
  pub denied_group_owns :
      (x : DbOrUser) (u : UnixUser) (g r : Text) (denylist : GroupDenylist)
      → IsName (name x)
      → Has g u.groups
      → name x ≡ (g ++ codes "_") ++ r
      → from_name (name x) ≡ none
      → validate_db_or_user_request from_name regexes x u denylist ≡ ok tt
  denied_group_owns x u g r denylist named member owned absent =
      (validate_request_exact from_name regexes x u denylist).1
        (named, (g, inr member, (r, owned)), inr (λ group there. absurd (cc)))
