-- ===== src/Server/Lists.antt =====
-- The operations that only read: the lists and the completions of server/sql/database_operations.rs
-- and server/sql/user_operations.rs, and `get_all_database_privileges` of
-- server/sql/database_privilege_operations.rs. The writes to the log are left out.
mod Queries
pub mod Rows
pub mod Answers
mod Tests
use muscl.Prelude.{ℕ, Bool, Option, none, some, List, [], ◌∷◌, ◌++◌, Result, ok, err, map_err}
use muscl.Prelude.Text.{Text, codes}
use muscl.Prelude.Ordered.{text_ord}
use muscl.Privileges.Row.{MySqlDatabase, MySqlUser, DatabasePrivilegeRow}
use muscl.Validation.{database, user, ValidationError}
use muscl.Server.Connection.{
  Action, Connection, Session, MySqlRow, validate, done, fail, lift, map_failure, ◌>>=◌, ◌>>◌,
  for_each,
}
use muscl.Server.Prefixes.{create_user_group_matching_regex}
use Rows.{
  DatabaseRow, DatabaseUser, database_of_row, user_of_row, try_get_with_binary_fallback, read_all,
  read_optional, read_some,
}
use Queries.{
  complete_database_name_query, list_database_query, list_all_databases_for_user_query,
  complete_user_name_query, db_user_select_statement, db_user_select_statement_mariadb,
  db_user_select_statement_mysql, user_databases_query, get_all_db_privs_query,
}

pub data ListDatabasesError : Type 0 where
  validation_error : ValidationError → ListDatabasesError
  database_does_not_exist : ListDatabasesError
  my_sql_error : Text → ListDatabasesError

pub data ListUsersError : Type 0 where
  validation_error : ValidationError → ListUsersError
  user_does_not_exist : ListUsersError
  my_sql_error : Text → ListUsersError

pub data ListAllDatabasesError : Type 0 where
  my_sql_error : Text → ListAllDatabasesError

pub data ListAllUsersError : Type 0 where
  my_sql_error : Text → ListAllUsersError

pub data ListAllPrivilegesError : Type 0 where
  my_sql_error : Text → ListAllPrivilegesError

-- `map_or_else(|| Err(..), Ok)`
abbrev or_fail : {E A : Type 0} → E → Option A → Result E A
or_fail e none = err e
or_fail e (some a) = ok a

-- A failed query gives no candidates.
abbrev rows_or_none : Result Text (List MySqlRow) → List MySqlRow
rows_or_none (ok rows) = rows
rows_or_none (err e) = []

module _ {S : Type 0} (session : Session S) where
  abbrev pub user_regex : Text
  user_regex =
      create_user_group_matching_regex session.from_name session.regexes session.group_denylist
        session.unix_user

  unfoldable pub complete_database_name : Text → S → List MySqlDatabase × S
  unfolding complete_database_name_query read_some
  complete_database_name database_prefix s =
      let (rows, s') =
        session.connection.fetch_rows complete_database_name_query
          (user_regex ∷ (database_prefix ++ codes "%") ∷ []) s in
      (read_some (λ row. row.text (codes "database")) (rows_or_none rows), s')

  -- The body of the loop of `list_databases`.
  unfoldable pub list_database : Bool → MySqlDatabase → Action S ListDatabasesError DatabaseRow
  unfolding list_database_query database_of_row
  list_database include_all_tables_and_users database_name =
      lift (map_err ListDatabasesError.validation_error (validate session (database database_name)))
      >> (map_failure ListDatabasesError.my_sql_error (
            session.connection.fetch_row (list_database_query include_all_tables_and_users)
              (database_name ∷ database_name ∷ database_name ∷ database_name ∷ database_name ∷ [])
            >>= λ row. lift (read_optional database_of_row row))
          >>= λ found. lift (or_fail ListDatabasesError.database_does_not_exist found))

  unfoldable pub list_databases :
      Bool
      → List MySqlDatabase
      → S
      → List (MySqlDatabase × Result ListDatabasesError DatabaseRow) × S
  list_databases include_all database_names =
      for_each (λ n. n) (list_database include_all) database_names []

  unfoldable pub list_all_databases_for_user :
      Bool → Action S ListAllDatabasesError (List DatabaseRow)
  unfolding list_all_databases_for_user_query read_all database_of_row
  list_all_databases_for_user include_all_tables_and_users =
      map_failure ListAllDatabasesError.my_sql_error (
        session.connection.fetch_rows
          (list_all_databases_for_user_query include_all_tables_and_users)
          (user_regex ∷ user_regex ∷ user_regex ∷ user_regex ∷ user_regex ∷ [])
        >>= λ rows. lift (read_all database_of_row rows))

  unfoldable pub complete_user_name : Text → S → List MySqlUser × S
  unfolding complete_user_name_query read_some
  complete_user_name user_prefix s =
      let (rows, s') =
        session.connection.fetch_rows complete_user_name_query
          (user_regex ∷ (user_prefix ++ codes "%") ∷ []) s in
      (read_some (λ row. try_get_with_binary_fallback row (codes "user")) (rows_or_none rows), s')

  -- `rows.first().map(|row| row.try_get("database_count")).transpose()?.unwrap_or(0)`
  abbrev first_count : List MySqlRow → Result Text ℕ
  first_count [] = ok 0
  first_count (row ∷ rows) = row.number (codes "database_count")

  abbrev with_databases : DatabaseUser → ℕ → List Text → DatabaseUser
  with_databases u count names = record {
    user = u.user;
    host = u.host;
    has_password = u.has_password;
    is_locked = u.is_locked;
    databases = names;
    database_count = count;
  }

  -- The user with its databases; after an error the caller does not use the user any more.
  unfoldable pub set_databases_where_user_has_privileges :
      Bool → DatabaseUser → Action S Text DatabaseUser
  unfolding user_databases_query read_all
  set_databases_where_user_has_privileges include_all_databases db_user =
      session.connection.fetch_rows (user_databases_query include_all_databases) (db_user.user ∷ [])
      >>= λ rows. lift (first_count rows) >>= λ count.
          lift (read_all (λ row. try_get_with_binary_fallback row (codes "database")) rows)
          >>= λ names. done (with_databases db_user count names)

  -- `if let Ok(Some(user)) = result.as_mut()`
  abbrev add_databases : Bool → Option DatabaseUser → Action S Text (Option DatabaseUser)
  add_databases include_all_databases none = done none
  add_databases include_all_databases (some u) =
      set_databases_where_user_has_privileges include_all_databases u >>= λ v. done (some v)

  -- The body of the loop of `list_database_users`.
  unfoldable pub list_database_user : Bool → MySqlUser → Action S ListUsersError DatabaseUser
  unfolding db_user_select_statement_mariadb db_user_select_statement_mysql user_of_row
      set_databases_where_user_has_privileges
  list_database_user include_all_databases db_user =
      lift (map_err ListUsersError.validation_error (validate session (user db_user)))
      >> (map_failure ListUsersError.my_sql_error (
            session.connection.fetch_row
              (db_user_select_statement session.db_is_mariadb
                ++ codes "WHERE `mysql`.`user`.`User` = ? AND `mysql`.`user`.`Host` = '%'")
              (db_user ∷ [])
            >>= λ row. lift (read_optional user_of_row row) >>= λ found.
                add_databases include_all_databases found)
          >>= λ found. lift (or_fail ListUsersError.user_does_not_exist found))

  unfoldable pub list_database_users :
      Bool → List MySqlUser → S → List (MySqlUser × Result ListUsersError DatabaseUser) × S
  list_database_users include_all db_users =
      for_each (λ n. n) (list_database_user include_all) db_users []

  -- `for user in users`, until one fails
  unfoldable pub add_databases_to_all : Bool → List DatabaseUser → Action S Text (List DatabaseUser)
  add_databases_to_all include_all_databases [] = done []
  add_databases_to_all include_all_databases (u ∷ us) =
      set_databases_where_user_has_privileges include_all_databases u >>= λ v.
      add_databases_to_all include_all_databases us >>= λ vs. done (v ∷ vs)

  unfoldable pub list_all_database_users_for_unix_user :
      Bool → Action S ListAllUsersError (List DatabaseUser)
  unfolding db_user_select_statement_mariadb db_user_select_statement_mysql user_of_row read_all
      add_databases_to_all
  list_all_database_users_for_unix_user include_all_databases =
      map_failure ListAllUsersError.my_sql_error (
        session.connection.fetch_rows
          (db_user_select_statement session.db_is_mariadb
            ++ codes "WHERE `user`.`User` REGEXP ? AND `user`.`Host` = '%'")
          (user_regex ∷ [])
        >>= λ rows. lift (read_all user_of_row rows) >>= λ users.
            add_databases_to_all include_all_databases users)

  unfoldable pub get_all_database_privileges :
      Action S ListAllPrivilegesError (List DatabasePrivilegeRow)
  unfolding get_all_db_privs_query
  get_all_database_privileges =
      map_failure ListAllPrivilegesError.my_sql_error
        (session.connection.fetch_privileges get_all_db_privs_query (user_regex ∷ []))
