-- ===== src/Server/Users.antt =====
-- server/sql/user_operations.rs: creating, dropping, locking and unlocking database users and
-- setting their passwords, with the errors of core/protocol/commands/. The lists of users and the
-- completion are in Server/Lists. The writes to the log are left out.
pub mod Effects
mod Tests
use muscl.Prelude.{
  ℕ, Bool, not, Option, none, some, List, [], ◌∷◌, ◌++◌, Result, map_err, if◌then◌else◌,
}
use muscl.Prelude.Text.{Text, codes}
use muscl.Prelude.Ordered.{text_ord}
use muscl.Privileges.Row.{MySqlUser}
use muscl.Validation.{user, ValidationError}
use muscl.Server.Sql.{quote_literal}
use muscl.Server.Connection.{
  Action, Connection, Session, validate, done, lift, guard, map_failure, ◌>>=◌, ◌>>◌, for_each,
}

pub data CreateUserError : Type 0 where
  validation_error : ValidationError → CreateUserError
  user_already_exists : CreateUserError
  my_sql_error : Text → CreateUserError

pub data DropUserError : Type 0 where
  validation_error : ValidationError → DropUserError
  user_does_not_exist : DropUserError
  my_sql_error : Text → DropUserError

pub data LockUserError : Type 0 where
  validation_error : ValidationError → LockUserError
  user_does_not_exist : LockUserError
  user_is_already_locked : LockUserError
  my_sql_error : Text → LockUserError

pub data UnlockUserError : Type 0 where
  validation_error : ValidationError → UnlockUserError
  user_does_not_exist : UnlockUserError
  user_is_already_unlocked : UnlockUserError
  my_sql_error : Text → UnlockUserError

pub data SetPasswordError : Type 0 where
  validation_error : ValidationError → SetPasswordError
  user_does_not_exist : SetPasswordError
  my_sql_error : Text → SetPasswordError

pub data PasswordSource : Type 0 where
  explicit : Text → PasswordSource
  generate clear : PasswordSource

unfoldable pub user_exists_query : Text
user_exists_query =
    codes "\n          SELECT EXISTS(\n            SELECT 1\n            FROM `mysql`.`user`\n"
    ++ codes "            WHERE `User` = ?\n              AND `Host` = '%'\n          )\n        "

unfoldable pub unsafe_user_exists : {S : Type 0} → Connection S → Text → Action S Text Bool
unsafe_user_exists connection db_user = connection.fetch_bool user_exists_query (db_user ∷ [])

pub database_user_lock_status_query_mariadb : Text
database_user_lock_status_query_mariadb =
    codes "\n    SELECT COALESCE(\n        JSON_EXTRACT(`mysql`.`global_priv`.`priv`, "
    ++ codes "\"$.account_locked\"),\n        'false'\n    ) != 'false'\n"
    ++ codes "    FROM `mysql`.`global_priv`\n    WHERE `User` = ?\n    AND `Host` = '%'\n"

pub database_user_lock_status_query_mysql : Text
database_user_lock_status_query_mysql =
    codes "\n    SELECT `mysql`.`user`.`account_locked` = 'Y'\n    FROM `mysql`.`user`\n"
    ++ codes "    WHERE `User` = ?\n    AND `Host` = '%'\n"

unfoldable pub database_user_is_locked_unsafe :
    {S : Type 0} → Connection S → Bool → Text → Action S Text Bool
database_user_is_locked_unsafe connection db_is_mariadb db_user =
    connection.fetch_bool
      (if db_is_mariadb
        then database_user_lock_status_query_mariadb
        else database_user_lock_status_query_mysql)
      (db_user ∷ [])

module _ {S : Type 0} (session : Session S) where
  -- The body of the loop of `create_database_users`.
  unfoldable pub create_database_user : MySqlUser → Action S CreateUserError (Unit {0})
  create_database_user db_user =
      lift (map_err CreateUserError.validation_error (validate session (user db_user)))
      >> (map_failure CreateUserError.my_sql_error (unsafe_user_exists session.connection db_user)
          >>= λ exists.
              guard exists user_already_exists
              >> map_failure CreateUserError.my_sql_error (
                  session.connection.execute
                    (codes "CREATE USER " ++ (quote_literal db_user ++ codes "@'%'")) []))

  unfoldable pub create_database_users :
      List MySqlUser → S → List (MySqlUser × Result CreateUserError (Unit {0})) × S
  create_database_users db_users = for_each (λ n. n) create_database_user db_users []

  -- The body of the loop of `drop_database_users`.
  unfoldable pub drop_database_user : MySqlUser → Action S DropUserError (Unit {0})
  drop_database_user db_user =
      lift (map_err DropUserError.validation_error (validate session (user db_user)))
      >> (map_failure DropUserError.my_sql_error (unsafe_user_exists session.connection db_user)
          >>= λ exists.
              guard (not exists) DropUserError.user_does_not_exist
              >> map_failure DropUserError.my_sql_error (
                  session.connection.execute
                    (codes "DROP USER " ++ (quote_literal db_user ++ codes "@'%'")) []))

  unfoldable pub drop_database_users :
      List MySqlUser → S → List (MySqlUser × Result DropUserError (Unit {0})) × S
  drop_database_users db_users = for_each (λ n. n) drop_database_user db_users []

  -- The body of the loop of `lock_database_users`.
  unfoldable pub lock_database_user : MySqlUser → Action S LockUserError (Unit {0})
  lock_database_user db_user =
      lift (map_err LockUserError.validation_error (validate session (user db_user)))
      >> (map_failure LockUserError.my_sql_error (unsafe_user_exists session.connection db_user)
          >>= λ exists.
              guard (not exists) LockUserError.user_does_not_exist
              >> (map_failure LockUserError.my_sql_error (
                    database_user_is_locked_unsafe session.connection session.db_is_mariadb db_user)
                  >>= λ locked.
                      guard locked user_is_already_locked
                      >> map_failure LockUserError.my_sql_error (
                          session.connection.execute
                            (codes "ALTER USER "
                              ++ (quote_literal db_user ++ codes "@'%' ACCOUNT LOCK"))
                            [])))

  unfoldable pub lock_database_users :
      List MySqlUser → S → List (MySqlUser × Result LockUserError (Unit {0})) × S
  lock_database_users db_users = for_each (λ n. n) lock_database_user db_users []

  -- The body of the loop of `unlock_database_users`.
  unfoldable pub unlock_database_user : MySqlUser → Action S UnlockUserError (Unit {0})
  unlock_database_user db_user =
      lift (map_err UnlockUserError.validation_error (validate session (user db_user)))
      >> (map_failure UnlockUserError.my_sql_error (unsafe_user_exists session.connection db_user)
          >>= λ exists.
              guard (not exists) UnlockUserError.user_does_not_exist
              >> (map_failure UnlockUserError.my_sql_error (
                    database_user_is_locked_unsafe session.connection session.db_is_mariadb db_user)
                  >>= λ locked.
                      guard (not locked) user_is_already_unlocked
                      >> map_failure UnlockUserError.my_sql_error (
                          session.connection.execute
                            (codes "ALTER USER "
                              ++ (quote_literal db_user ++ codes "@'%' ACCOUNT UNLOCK"))
                            [])))

  unfoldable pub unlock_database_users :
      List MySqlUser → S → List (MySqlUser × Result UnlockUserError (Unit {0})) × S
  unlock_database_users db_users = for_each (λ n. n) unlock_database_user db_users []

  -- `generated` is what `Alphanumeric.sample_string` gives for the length of 24 in this call. It is
  -- used where the source of the password is `Generate`.
  abbrev pub generated_password : Text → PasswordSource → Option Text
  generated_password generated (explicit password) = none
  generated_password generated generate = some generated
  generated_password generated clear = none

  abbrev pub new_password : Text → PasswordSource → Text
  new_password generated (explicit password) = password
  new_password generated generate = generated
  new_password generated clear = []

  unfoldable pub set_password_for_database_user :
      Text → MySqlUser → PasswordSource → Action S SetPasswordError (Option Text)
  set_password_for_database_user generated db_user password =
      lift (map_err SetPasswordError.validation_error (validate session (user db_user)))
      >> (map_failure SetPasswordError.my_sql_error (unsafe_user_exists session.connection db_user)
          >>= λ exists.
              guard (not exists) SetPasswordError.user_does_not_exist
              >> (map_failure SetPasswordError.my_sql_error (
                    session.connection.execute
                      (codes "ALTER USER "
                        ++ (quote_literal db_user
                            ++ (codes "@'%' IDENTIFIED BY "
                                ++ quote_literal (new_password generated password))))
                      [])
                  >>= λ _. done (generated_password generated password)))
