-- ===== src/Validation.antt =====
-- core/protocol/request_validation.rs (names and ownership), with `UnixUser` of core/common.rs and
-- `DbOrUser` of core/types.rs. The group denylist is in Denylist.antt. The system's group database,
-- `Group::from_name`, is a parameter.
pub mod Exact
pub mod Gap
mod Tests
use muscl.Prelude.{
  ℕ, ◌++◌, Bool, true, false, not, ◌&&◌, ◌||◌, Option, none, some, List, [], ◌∷◌, keep, map, all,
  is_empty_list, ltb, leb, ◌==◌, if◌then◌else◌, Result, ok, err, map_err, ◌>>◌,
}
use muscl.Prelude.Text.{Text, codes, len, text_eq, starts_with}
use muscl.Privileges.Row.{MySqlDatabase, MySqlUser}
use muscl.Denylist.{Group, GroupDenylist, Regexes, denies}

pub record UnixUser : Type 0 where
  pub username : Text
  pub groups : List Text

pub data DbOrUser : Type 0 where
  database : MySqlDatabase → DbOrUser
  user : MySqlUser → DbOrUser

abbrev pub name : DbOrUser → Text
name (database db) = db
name (user u) = u

-- `split('_').next().unwrap_or("?")`: what stands before the first underscore.
abbrev pub before_underscore : Text → Text
before_underscore [] = []
before_underscore (c ∷ s) = let rest = before_underscore s in if c == b'_' then [] else c ∷ rest

abbrev pub prefix : DbOrUser → Text
prefix (database db) = before_underscore db
prefix (user u) = before_underscore u

abbrev pub lowercased_noun : DbOrUser → Text
lowercased_noun (database db) = codes "database"
lowercased_noun (user u) = codes "user"

abbrev pub capitalized_noun : DbOrUser → Text
capitalized_noun (database db) = codes "Database"
capitalized_noun (user u) = codes "User"

pub data NameValidationError : Type 0 where
  empty_string invalid_characters too_long : NameValidationError

pub data AuthorizationError : Type 0 where
  illegal_prefix string_empty denylist_error : AuthorizationError

pub data ValidationError : Type 0 where
  name_validation_error : NameValidationError → ValidationError
  authorization_error : AuthorizationError → ValidationError

abbrev pub max_name_length : ℕ
max_name_length = 64

-- `c.is_ascii_alphanumeric() || c == '_' || c == '-'`
abbrev pub is_name_char : ℕ → Bool
is_name_char c =
    (leb b'0' c && leb c b'9')
    || (leb b'A' c && leb c b'Z')
    || (leb b'a' c && leb c b'z')
    || c == b'_'
    || c == b'-'

unfoldable pub validate_name : Text → Result NameValidationError (Unit {0})
validate_name s =
    if is_empty_list s
    then err empty_string
    else if ltb max_name_length (len s)
    then err too_long
    else if not (all is_name_char s)
    then err invalid_characters
    else ok tt

-- Does `name` start with the prefix and an underscore?
abbrev pub is_owned_by : Text → Text → Bool
is_owned_by s p = starts_with s (p ++ codes "_")

unfoldable pub validate_authorization_by_prefixes :
    Text → List Text → Result AuthorizationError (Unit {0})
validate_authorization_by_prefixes s prefixes =
    if is_empty_list s
    then err string_empty
    else if is_empty_list (keep (is_owned_by s) prefixes)
    then err illegal_prefix
    else ok tt

unfoldable pub validate_authorization_by_unix_user :
    Text → UnixUser → Result AuthorizationError (Unit {0})
unfolding validate_authorization_by_prefixes
validate_authorization_by_unix_user s u =
    validate_authorization_by_prefixes s (u.username ∷ u.groups)

-- `from_name` is `Group::from_name(name).ok().flatten()`.
module _ (from_name : Text → Option Group) (regexes : Regexes) where
  unfoldable pub validate_authorization_by_group_denylist :
      Text → UnixUser → GroupDenylist → Result AuthorizationError (Unit {0})
  unfolding text_eq
  validate_authorization_by_group_denylist s u denylist =
      if text_eq u.username s then ok tt else elim (from_name s) [
        | none ↦ ok tt
        | some group ↦ if denies regexes denylist group then err denylist_error else ok tt
      ]

  unfoldable pub validate_db_or_user_request :
      DbOrUser → UnixUser → GroupDenylist → Result ValidationError (Unit {0})
  unfolding validate_name validate_authorization_by_unix_user
      validate_authorization_by_group_denylist
  validate_db_or_user_request db_or_user u denylist =
      map_err name_validation_error (validate_name (name db_or_user))
      >> (map_err authorization_error (validate_authorization_by_unix_user (name db_or_user) u)
          >> map_err authorization_error
              (validate_authorization_by_group_denylist (name db_or_user) u denylist))
