-- ===== src/Validation/Tests.antt =====
-- Runs of the validation, and its theorems at sample requests.
use muscl.Prelude.{◌≡◌, ◌↔◌, refl, true, false, Option, none, some, [], ◌∷◌, inl, ok, err}
use muscl.Prelude.Text.{Text, codes, starts_with, text_eq}
use muscl.Denylist.{Group, GroupDenylist, new_denylist, matches}
use muscl.Denylist.Engine.{engine}
use muscl.Validation.{
  UnixUser, database, user, prefix, empty_string, invalid_characters, illegal_prefix,
  denylist_error, validate_name, validate_authorization_by_prefixes,
  validate_authorization_by_group_denylist, validate_db_or_user_request,
}
use muscl.Validation.Exact.{IsName, Owns, NotDenied, validate_name_exact, validate_request_exact}
use muscl.Validation.Gap.{denied_group_owns}

abbrev alice : UnixUser
alice = record { username = codes "alice"; groups = codes "wheel" ∷ codes "web" ∷ [] }

-- The system has the group wheel, and it is denied.
abbrev groups : Text → Option Group
groups s = elim (text_eq s (codes "wheel")) [
  | true ↦ some (record { name = codes "wheel"; gid = 10 })
  | false ↦ none
]

abbrev no_wheel : GroupDenylist
no_wheel = record new_denylist { gids = 10 ∷ [] }

names :
    (validate_name [] ≡ err empty_string)
    × (validate_name (codes "a b") ≡ err invalid_characters)
    × (validate_name (codes "alice_db-1") ≡ ok tt)
unfolding validate_name
names = (refl, refl, refl)

prefixes :
    (validate_authorization_by_prefixes (codes "alice_db") (codes "bob" ∷ codes "alice" ∷ [])
      ≡ ok tt)
    × (validate_authorization_by_prefixes (codes "alice") (codes "alice" ∷ []) ≡ err illegal_prefix)
    × (prefix (database (codes "alice_db_2")) ≡ codes "alice")
unfolding validate_authorization_by_prefixes starts_with
prefixes = (refl, refl, refl)

denied :
    validate_authorization_by_group_denylist groups engine (codes "wheel") alice no_wheel
    ≡ err denylist_error
unfolding validate_authorization_by_group_denylist text_eq matches
denied = refl

validate_request_exact_example :
    (validate_db_or_user_request groups engine (user (codes "alice_u")) alice no_wheel ≡ ok tt) ↔ (
      IsName (codes "alice_u")
      × Owns (codes "alice" ∷ alice.groups) (codes "alice_u")
      × NotDenied groups engine (codes "alice_u") alice no_wheel)
validate_request_exact_example =
    validate_request_exact groups engine (user (codes "alice_u")) alice no_wheel

wheel_db-IsName : IsName (codes "wheel_db")
unfolding validate_name
wheel_db-IsName = (validate_name_exact (codes "wheel_db")).0 refl

-- The denied group serves as a prefix.
denied_group_owns_example :
    validate_db_or_user_request groups engine (database (codes "wheel_db")) alice no_wheel ≡ ok tt
unfolding text_eq
denied_group_owns_example =
    denied_group_owns groups engine (database (codes "wheel_db")) alice (codes "wheel") (codes "db")
      no_wheel wheel_db-IsName (inl refl) refl refl
