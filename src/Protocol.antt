-- ===== src/Protocol.antt =====
-- core/protocol/commands.rs: the requests of a client, the server's responses, and what the log says
-- of both. The streams and their encoding are library code.
pub mod Status
pub mod StatusExact
pub mod Messages
mod Tests
use muscl.Prelude.{ℕ, Bool, Option, none, some, List, [], ◌∷◌, ◌++◌, map, length, Result, ok, err}
use muscl.Prelude.Text.{Text, codes}
use muscl.Prelude.Ordered.{text_ord, insert}
use muscl.Prelude.Decimal.{decimal}
use muscl.Privileges.Row.{MySqlDatabase, MySqlUser, DatabasePrivilegeRow}
use muscl.Privileges.Diff.{DatabasePrivilegesDiff, get_database_name, get_user_name}
use muscl.Validation.{DbOrUser, ValidationError}
use muscl.Server.Databases.{CreateDatabaseError, DropDatabaseError}
use muscl.Server.Users.{
  CreateUserError, DropUserError, LockUserError, UnlockUserError, PasswordSource, SetPasswordError,
}
use muscl.Server.Grants.{
  ListPrivilegesError, ModifyDatabasePrivilegesError, ModifyPrivilegesResponse,
}
use muscl.Server.Lists.{
  ListDatabasesError, ListUsersError, ListAllDatabasesError, ListAllUsersError,
  ListAllPrivilegesError,
}
use muscl.Server.Lists.Rows.{DatabaseRow, DatabaseUser}

-- `ListDatabasesRequest` and `ListUsersRequest` are pairs of their two fields.
pub data Request : Type 0 where
  check_authorization : List DbOrUser → Request
  list_valid_name_prefixes : Request
  complete_database_name complete_user_name : Text → Request
  create_databases drop_databases : List MySqlDatabase → Request
  list_databases : Option (List MySqlDatabase) → Bool → Request
  list_privileges : Option (List MySqlDatabase) → Request
  modify_privileges : List DatabasePrivilegesDiff → Request
  create_users drop_users : List MySqlUser → Request
  passwd_user : MySqlUser → PasswordSource → Request
  list_users : Option (List MySqlUser) → Bool → Request
  lock_users unlock_users : List MySqlUser → Request
  exit : Request

-- A `BTreeMap` from names to results.
abbrev pub Results : Type 0 → Type 0 → Type 0
Results E A = List (Text × Result E A)

pub data Response : Type 0 where
  check_authorization : List (DbOrUser × Result ValidationError (Unit {0})) → Response
  list_valid_name_prefixes complete_database_name complete_user_name : List Text → Response
  create_databases : Results CreateDatabaseError (Unit {0}) → Response
  drop_databases : Results DropDatabaseError (Unit {0}) → Response
  list_databases : Results ListDatabasesError DatabaseRow → Response
  list_all_databases : Result ListAllDatabasesError (List DatabaseRow) → Response
  list_privileges : Results ListPrivilegesError (List DatabasePrivilegeRow) → Response
  list_all_privileges : Result ListAllPrivilegesError (List DatabasePrivilegeRow) → Response
  modify_privileges : ModifyPrivilegesResponse → Response
  create_users : Results CreateUserError (Unit {0}) → Response
  drop_users : Results DropUserError (Unit {0}) → Response
  set_user_password : Result SetPasswordError (Option Text) → Response
  list_users : Results ListUsersError DatabaseUser → Response
  list_all_users : Result ListAllUsersError (List DatabaseUser) → Response
  lock_users : Results LockUserError (Unit {0}) → Response
  unlock_users : Results UnlockUserError (Unit {0}) → Response
  ready : Response
  error : Text → Response

unfoldable pub command_name : Request → Text
command_name (Request.check_authorization xs) = codes "check-authorization"
command_name Request.list_valid_name_prefixes = codes "list-valid-name-prefixes"
command_name (Request.complete_database_name s) = codes "complete-database-name"
command_name (Request.complete_user_name s) = codes "complete-user-name"
command_name (Request.create_databases names) = codes "create-databases"
command_name (Request.drop_databases names) = codes "drop-databases"
command_name (Request.list_databases names all) = codes "list-databases"
command_name (Request.list_privileges names) = codes "list-privileges"
command_name (Request.modify_privileges diffs) = codes "modify-privileges"
command_name (Request.create_users names) = codes "create-users"
command_name (Request.drop_users names) = codes "drop-users"
command_name (Request.passwd_user u password) = codes "passwd-user"
command_name (Request.list_users names all) = codes "list-users"
command_name (Request.lock_users names) = codes "lock-users"
command_name (Request.unlock_users names) = codes "unlock-users"
command_name exit = codes "exit"

abbrev count_suffix : {A : Type 0} → List A → Text
count_suffix xs = codes "(" ++ (decimal (length xs) ++ codes ")")

abbrev option_suffix : {A : Type 0} → Option (List A) → Text
option_suffix none = []
option_suffix (some xs) = count_suffix xs

abbrev suffix : Request → Text
suffix (Request.check_authorization xs) = count_suffix xs
suffix (Request.create_databases names) = count_suffix names
suffix (Request.drop_databases names) = count_suffix names
suffix (Request.list_databases names all) = option_suffix names
suffix (Request.list_privileges names) = option_suffix names
suffix (Request.modify_privileges diffs) = count_suffix diffs
suffix (Request.create_users names) = count_suffix names
suffix (Request.drop_users names) = count_suffix names
suffix (Request.list_users names all) = option_suffix names
suffix (Request.lock_users names) = count_suffix names
suffix (Request.unlock_users names) = count_suffix names
suffix _ = []

unfoldable pub log_summary : Request → Text
unfolding command_name decimal
log_summary request = command_name request ++ suffix request

-- `collect` into a `BTreeSet`
abbrev pub set_of : List Text → List Text
set_of [] = []
set_of (x ∷ xs) = insert x (set_of xs)

abbrev or_empty : Option (List Text) → List Text
or_empty none = []
or_empty (some xs) = xs

unfoldable pub affected_users : Request → List MySqlUser
unfolding insert
affected_users (Request.modify_privileges diffs) = set_of (map get_user_name diffs)
affected_users (Request.create_users users) = set_of users
affected_users (Request.drop_users users) = set_of users
affected_users (Request.passwd_user u password) = set_of (u ∷ [])
affected_users (Request.list_users names all) = set_of (or_empty names)
affected_users (Request.lock_users users) = set_of users
affected_users (Request.unlock_users users) = set_of users
affected_users _ = []

unfoldable pub affected_databases : Request → List MySqlDatabase
unfolding insert
affected_databases (Request.create_databases databases) = set_of databases
affected_databases (Request.drop_databases databases) = set_of databases
affected_databases (Request.list_databases names all) = set_of (or_empty names)
affected_databases (Request.list_privileges names) = set_of (or_empty names)
affected_databases (Request.modify_privileges diffs) = set_of (map get_database_name diffs)
affected_databases _ = []
