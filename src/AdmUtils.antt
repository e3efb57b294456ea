-- ===== src/AdmUtils.antt =====
-- client/mysql_admutils_compatibility/common.rs and error_messages.rs: the names and the messages of
-- mysql-dbadm and mysql-useradm. `argv0` is the first argument of the process, if it has one, and a
-- function that prints a message is one that gives it.
use muscl.Prelude.{
  ℕ, ◌-◌, ◌≤◌, ◌==◌, length, Bool-cases, inl, inr, arith, if◌then◌else◌, Option, some, none, [],
  ◌∷◌, ◌++◌,
}
use muscl.Prelude.Text.{Text, codes}
use muscl.Privileges.Row.{MySqlDatabase, MySqlUser}
use muscl.Validation.{
  DbOrUser, database, user, name, lowercased_noun, capitalized_noun, ValidationError,
  name_validation_error, authorization_error,
}
use muscl.Server.Databases.{CreateDatabaseError, DropDatabaseError}
use muscl.Server.Users.{CreateUserError, DropUserError}
use muscl.Server.Grants.{ListPrivilegesError}
use muscl.Server.Lists.{ListUsersError}

-- `chars().take(n)`
unfoldable take_chars : ℕ → Text → Text
take_chars n [] = []
take_chars n (c ∷ s) = let rest = take_chars (n - 1) s in if n == 0 then [] else c ∷ rest

abbrev pub trim_db_name_to_32_chars : MySqlDatabase → MySqlDatabase
unfolding take_chars
trim_db_name_to_32_chars db_name = take_chars 32 db_name

abbrev pub trim_user_name_to_32_chars : MySqlUser → MySqlUser
unfolding take_chars
trim_user_name_to_32_chars user_name = take_chars 32 user_name

-- `unwrap_or_else`
abbrev or_name : Text → Option Text → Text
or_name fallback none = fallback
or_name fallback (some argv0) = argv0

abbrev program_name : DbOrUser → Text
program_name (database db) = codes "mysql-dbadm"
program_name (user u) = codes "mysql-useradm"

abbrev authorization_error_message : DbOrUser → Text
authorization_error_message d =
    codes "You are not in charge of mysql-"
    ++ (lowercased_noun d ++ (codes ": '" ++ (name d ++ codes "'.  Skipping.")))

module _ (argv0 : Option Text) where
  abbrev name_validation_error_to_error_message : DbOrUser → Text
  name_validation_error_to_error_message d =
      or_name (program_name d) argv0
      ++ (codes ": "
          ++ (capitalized_noun d
              ++ (codes " name '"
                  ++ (name d
                      ++ (codes "' contains invalid characters.\n"
                          ++ (codes "Only A-Z, a-z, 0-9, _ (underscore) and - (dash) "
                              ++ codes "permitted. Skipping."))))))

  -- The arms of a validation error, which all the handlers share.
  abbrev validation_message : ValidationError → DbOrUser → Text
  validation_message (name_validation_error e) d = name_validation_error_to_error_message d
  validation_message (authorization_error e) d = authorization_error_message d

  -- The program, what it says, the name and the rest.
  abbrev line : Text → Text → Text → Text → Text
  line program before item rest =
      or_name program argv0 ++ (codes ": " ++ (before ++ (codes " '" ++ (item ++ rest))))

  abbrev pub handle_create_user_error : CreateUserError → Text → Text
  handle_create_user_error (CreateUserError.validation_error e) u = validation_message e (user u)
  handle_create_user_error (CreateUserError.my_sql_error e) u =
      line (codes "mysql-useradm") (codes "Failed to create user") u (codes "'.")
  handle_create_user_error CreateUserError.user_already_exists u =
      line (codes "mysql-useradm") (codes "Failed to create user") u (codes "'.")

  abbrev pub handle_drop_user_error : DropUserError → Text → Text
  handle_drop_user_error (DropUserError.validation_error e) u = validation_message e (user u)
  handle_drop_user_error (DropUserError.my_sql_error e) u =
      line (codes "mysql-useradm") (codes "Failed to delete user") u (codes "'.")
  handle_drop_user_error DropUserError.user_does_not_exist u =
      line (codes "mysql-useradm") (codes "Failed to delete user") u (codes "'.")

  abbrev pub handle_list_users_error : ListUsersError → Text → Text
  handle_list_users_error (ListUsersError.validation_error e) u = validation_message e (user u)
  handle_list_users_error ListUsersError.user_does_not_exist u =
      line (codes "mysql-useradm") (codes "User") u
        (codes "' does not exist. You must create it first.")
  handle_list_users_error (ListUsersError.my_sql_error e) u =
      line (codes "mysql-useradm") (codes "Failed to look up password for user") u (codes "'")

  abbrev pub handle_create_database_error : CreateDatabaseError → Text → Text
  handle_create_database_error (CreateDatabaseError.validation_error e) db =
      validation_message e (database db)
  handle_create_database_error (CreateDatabaseError.my_sql_error e) db =
      line (codes "mysql-dbadm") (codes "Cannot create database") db (codes "'.")
  handle_create_database_error CreateDatabaseError.database_already_exists db =
      line (codes "mysql-dbadm") (codes "Database") db (codes "' already exists.")

  abbrev pub handle_drop_database_error : DropDatabaseError → Text → Text
  handle_drop_database_error (DropDatabaseError.validation_error e) db =
      validation_message e (database db)
  handle_drop_database_error (DropDatabaseError.my_sql_error e) db =
      line (codes "mysql-dbadm") (codes "Cannot drop database") db (codes "'.")
  handle_drop_database_error DropDatabaseError.database_does_not_exist db =
      line (codes "mysql-dbadm") (codes "Database") db (codes "' doesn't exist.")

  abbrev pub format_show_database_error_message : ListPrivilegesError → Text → Text
  format_show_database_error_message (ListPrivilegesError.validation_error e) db =
      validation_message e (database db)
  format_show_database_error_message (ListPrivilegesError.my_sql_error e) db =
      line (codes "mysql-dbadm") (codes "Failed to look up privileges for database") db
        (codes "': " ++ e)
  format_show_database_error_message ListPrivilegesError.database_does_not_exist db =
      line (codes "mysql-dbadm") (codes "Database") db (codes "' doesn't exist.")

take_chars_bound : (n : ℕ) (s : Text) → length (take_chars n s) ≤ n
unfolding take_chars
take_chars_bound n [] = omega arith
take_chars_bound n (c ∷ s) = elim (Bool-cases (n == 0)) [
  | inl here ↦ rw (here, take_chars) (omega arith)
  | inr later ↦
      let bound = take_chars_bound (n - 1) s in rw (later, take_chars) (ground (arith, bound))
]

-- A name of a database that has been cut has 32 characters at most.
trim_db_name_to_32_chars_bound :
    (db_name : MySqlDatabase) → length (trim_db_name_to_32_chars db_name) ≤ 32
unfolding trim_db_name_to_32_chars
trim_db_name_to_32_chars_bound db_name = take_chars_bound 32 db_name
