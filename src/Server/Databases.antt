-- ===== src/Server/Databases.antt =====
-- server/sql/database_operations.rs: creating and dropping databases, with the errors of
-- core/protocol/commands/create_databases.rs and drop_databases.rs. The lists of databases and the
-- completion are in Server/Lists. The writes to the log are left out.
pub mod Effects
mod Tests
use muscl.Prelude.{ℕ, Bool, not, Option, List, [], ◌∷◌, ◌++◌, Result, map_err}
use muscl.Prelude.Text.{Text, codes}
use muscl.Prelude.Ordered.{text_ord}
use muscl.Privileges.Row.{MySqlDatabase}
use muscl.Validation.{database, ValidationError}
use muscl.Server.Sql.{quote_identifier}
use muscl.Server.Connection.{
  Action, Connection, Session, validate, lift, guard, map_failure, ◌>>=◌, ◌>>◌, for_each,
}

pub data CreateDatabaseError : Type 0 where
  validation_error : ValidationError → CreateDatabaseError
  database_already_exists : CreateDatabaseError
  my_sql_error : Text → CreateDatabaseError

pub data DropDatabaseError : Type 0 where
  validation_error : ValidationError → DropDatabaseError
  database_does_not_exist : DropDatabaseError
  my_sql_error : Text → DropDatabaseError

unfoldable pub database_exists_query : Text
database_exists_query =
    codes "SELECT SCHEMA_NAME FROM information_schema.SCHEMATA WHERE SCHEMA_NAME = ?"

unfoldable pub unsafe_database_exists : {S : Type 0} → Connection S → Text → Action S Text Bool
unsafe_database_exists connection database_name =
    connection.fetch_any database_exists_query (database_name ∷ [])

module _ {S : Type 0} (session : Session S) where
  -- The body of the loop of `create_databases`.
  unfoldable pub create_database : MySqlDatabase → Action S CreateDatabaseError (Unit {0})
  create_database database_name =
      lift
        (map_err CreateDatabaseError.validation_error (validate session (database database_name)))
      >> (map_failure CreateDatabaseError.my_sql_error
            (unsafe_database_exists session.connection database_name)
          >>= λ exists.
              guard exists database_already_exists
              >> map_failure CreateDatabaseError.my_sql_error (
                  session.connection.execute
                    (codes "CREATE DATABASE " ++ quote_identifier database_name) []))

  unfoldable pub create_databases :
      List MySqlDatabase → S → List (MySqlDatabase × Result CreateDatabaseError (Unit {0})) × S
  create_databases database_names = for_each (λ n. n) create_database database_names []

  -- The body of the loop of `drop_databases`.
  unfoldable pub drop_database : MySqlDatabase → Action S DropDatabaseError (Unit {0})
  drop_database database_name =
      lift (map_err DropDatabaseError.validation_error (validate session (database database_name)))
      >> (map_failure DropDatabaseError.my_sql_error
            (unsafe_database_exists session.connection database_name)
          >>= λ exists.
              guard (not exists) database_does_not_exist
              >> map_failure DropDatabaseError.my_sql_error (
                  session.connection.execute
                    (codes "DROP DATABASE " ++ quote_identifier database_name) []))

  unfoldable pub drop_databases :
      List MySqlDatabase → S → List (MySqlDatabase × Result DropDatabaseError (Unit {0})) × S
  drop_databases database_names = for_each (λ n. n) drop_database database_names []
