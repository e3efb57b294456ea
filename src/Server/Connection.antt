-- ===== src/Server/Connection.antt =====
-- The connection to the MySQL server, `sqlx::MySqlConnection`, as a parameter over a state of the
-- server, and the actions that the operations of server/sql/ chain on it: a result and the state
-- after. The loops over the names of a request collect their results in a `BTreeMap`.
pub mod Loops
use muscl.Prelude.{
  Bool, ℕ, true, false, Option, List, [], ◌∷◌, if◌then◌else◌, Result, ok, err, map_err,
}
use muscl.Prelude.Text.{Text}
use muscl.Prelude.Ordered.{Ord, insert_at}
use muscl.Privileges.Row.{DatabasePrivilegeRow}
use muscl.Denylist.{Group, GroupDenylist, Regexes}
use muscl.Validation.{UnixUser, DbOrUser, ValidationError, validate_db_or_user_request}

abbrev pub Action : Type 0 → Type 0 → Type 0 → Type 0
Action S E A = S → Result E A × S

-- `sqlx::mysql::MySqlRow`: what `try_get` gives for a column of each type that is asked for.
pub record MySqlRow : Type 0 where
  pub text : Text → Result Text Text
  -- `try_get::<Vec<u8>, _>` and `String::from_utf8_lossy`
  pub lossy_bytes : Text → Result Text Text
  pub optional_text : Text → Result Text (Option Text)
  pub number : Text → Result Text ℕ
  pub flag : Text → Result Text Bool

-- Each takes the text of the statement and the values bound to its `?`; the error is the one that
-- sqlx reports, as text.
pub record Connection (S : Type 0) : Type 0 where
  -- `query(..).fetch_optional(..)`, and whether there is a row.
  pub fetch_any : Text → List Text → Action S Text Bool
  -- `query(..).fetch_one(..)`, and its first column.
  pub fetch_bool : Text → List Text → Action S Text Bool
  -- `query_as::<_, DatabasePrivilegeRow>(..).fetch_optional(..)`
  pub fetch_privilege : Text → List Text → Action S Text (Option DatabasePrivilegeRow)
  -- `query_as::<_, DatabasePrivilegeRow>(..).fetch_all(..)`
  pub fetch_privileges : Text → List Text → Action S Text (List DatabasePrivilegeRow)
  -- `query(..).fetch_optional(..)` and `query(..).fetch_all(..)`
  pub fetch_row : Text → List Text → Action S Text (Option MySqlRow)
  pub fetch_rows : Text → List Text → Action S Text (List MySqlRow)
  -- `query(..).execute(..)`; a `none` is bound as NULL.
  pub execute : Text → List (Option Text) → Action S Text (Unit {0})

-- What each operation takes of its session: the user of the client's process, the denylist and the
-- connection, with the system's group database, `Group::from_name`, and the engine of regular
-- expressions.
pub record Session (S : Type 0) : Type 0 where
  pub from_name : Text → Option Group
  pub regexes : Regexes
  pub unix_user : UnixUser
  pub group_denylist : GroupDenylist
  pub connection : Connection S
  pub db_is_mariadb : Bool

module _ {S : Type 0} where
  unfoldable pub validate : Session S → DbOrUser → Result ValidationError (Unit {0})
  validate session x =
      validate_db_or_user_request session.from_name session.regexes x session.unix_user
        session.group_denylist

  abbrev pub is_valid : Session S → DbOrUser → Bool
  is_valid session x = elim (validate session x) [ ok _ ↦ true | err _ ↦ false ]

  abbrev pub done : {E A : Type 0} → A → Action S E A
  done a s = (ok a, s)

  abbrev pub fail : {E A : Type 0} → E → Action S E A
  fail e s = (err e, s)

  abbrev pub lift : {E A : Type 0} → Result E A → Action S E A
  lift r s = (r, s)

  -- Return the error where the test holds.
  abbrev pub guard : {E : Type 0} → Bool → E → Action S E (Unit {0})
  guard b e s = (if b then err e else ok tt, s)

  abbrev pub map_failure : {E F A : Type 0} → (E → F) → Action S E A → Action S F A
  map_failure f m s = (map_err f (m s).0, (m s).1)

  abbrev continue : {E A B : Type 0} → (A → Action S E B) → Result E A × S → Result E B × S
  continue k (ok a, s) = k a s
  continue k (err e, s) = (err e, s)

  infixl 5 ◌>>=◌ ◌>>◌
  abbrev pub ◌>>=◌ : {E A B : Type 0} → Action S E A → (A → Action S E B) → Action S E B
  (m >>= k) s = continue k (m s)

  abbrev pub ◌>>◌ : {E B : Type 0} → Action S E (Unit {0}) → Action S E B → Action S E B
  m >> k = m >>= λ _. k

-- A loop that handles each item and inserts its result under the item's key.
module _ {S E A B K : Type 0} ⦃o : Ord K⦄ where
  unfoldable pub for_each :
      (B → K) → (B → Action S E A) → List B → List (K × Result E A) → S → List (K × Result E A) × S
  for_each key body [] results s = (results, s)
  for_each key body (b ∷ bs) results s =
      for_each key body bs (insert_at (key b) (body b s).0 results) (body b s).1
