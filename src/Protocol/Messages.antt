-- ===== src/Protocol/Messages.antt =====
-- core/protocol/request_validation.rs and core/protocol/commands/: the messages and the types of
-- errors that a client writes, the latter in the JSON form. What the derived `Debug` writes is a
-- parameter.
use muscl.Prelude.{
  ◌≡◌, refl, ap, sym, ◌∙◌, ℕ, ◌-◌, ltb, List, length, is_empty_list, Option, some, none, ◌++◌,
  if◌then◌else◌,
}
use muscl.Prelude.Words.{join}
use muscl.Prelude.Decimal.{decimal}
use muscl.Prelude.Text.{Text, codes, text_eq}
use muscl.Privileges.Row.{MySqlDatabase, MySqlUser, DatabasePrivilegeRow}
use muscl.Privileges.RowDiff.{DatabasePrivilegeRowDiff}
use muscl.Validation.{
  DbOrUser, database, user, name, prefix, lowercased_noun, capitalized_noun, NameValidationError,
  empty_string, invalid_characters, too_long, AuthorizationError, illegal_prefix, string_empty,
  denylist_error, ValidationError, name_validation_error, authorization_error,
}
use muscl.Server.Databases.{CreateDatabaseError, DropDatabaseError}
use muscl.Server.Users.{
  CreateUserError, DropUserError, LockUserError, UnlockUserError, SetPasswordError,
}
use muscl.Server.Grants.{ListPrivilegesError, ModifyDatabasePrivilegesError, DiffDoesNotApplyError}
use muscl.Server.Lists.{
  ListDatabasesError, ListUsersError, ListAllDatabasesError, ListAllUsersError,
  ListAllPrivilegesError,
}

-- An error of a request for something of a name: `to_error_message` and `error_type`.
pub record CommandError (E N : Type 0) : Type 0 where
  pub to_error_message : E → N → Text
  pub error_type : E → Text

abbrev pub name_error_message : NameValidationError → DbOrUser → Text
name_error_message empty_string d = capitalized_noun d ++ codes " name can not be empty."
name_error_message too_long d =
    capitalized_noun d ++ codes " is too long, maximum length is 64 characters."
name_error_message invalid_characters d =
    codes "Invalid characters in "
    ++ (lowercased_noun d
        ++ (codes " name: '"
            ++ (name d
                ++ (codes "', only A-Z, a-z, 0-9, _ (underscore) and - (dash) are "
                    ++ codes "permitted.\n"))))

abbrev pub authorization_error_message : AuthorizationError → DbOrUser → Text
authorization_error_message illegal_prefix d =
    codes "Illegal "
    ++ (lowercased_noun d
        ++ (codes " name prefix: you are not allowed to manage databases or users prefixed with '"
            ++ (prefix d ++ codes "'")))
authorization_error_message string_empty d = capitalized_noun d ++ codes " name can not be empty."
authorization_error_message denylist_error d =
    codes "'" ++ (name d ++ codes "' is denied by the group denylist")

abbrev name_error_type : NameValidationError → Text
name_error_type empty_string = codes "empty-string"
name_error_type invalid_characters = codes "invalid-characters"
name_error_type too_long = codes "too-long"

abbrev authorization_error_type : AuthorizationError → Text
authorization_error_type illegal_prefix = codes "illegal-prefix"
authorization_error_type string_empty = codes "string-empty"
authorization_error_type denylist_error = codes "denylist-error"

abbrev pub validation_error_message : ValidationError → DbOrUser → Text
validation_error_message (name_validation_error e) d = name_error_message e d
validation_error_message (authorization_error e) d = authorization_error_message e d

abbrev pub validation_error_type : ValidationError → Text
validation_error_type (name_validation_error e) =
    codes "name-validation-error/" ++ name_error_type e
validation_error_type (authorization_error e) =
    codes "authorization-error/" ++ authorization_error_type e

abbrev my_sql_message : Text → Text
my_sql_message e = codes "MySQL error: " ++ e

abbrev database_message : Text → Text → Text
database_message db what = codes "Database '" ++ (db ++ (codes "' " ++ what))

abbrev user_message : Text → Text → Text
user_message u what = codes "User '" ++ (u ++ (codes "' " ++ what))

instance create_database_error : CommandError CreateDatabaseError MySqlDatabase
create_database_error = record { to_error_message = message; error_type = type_of }
  where
    message : CreateDatabaseError → MySqlDatabase → Text
    message (CreateDatabaseError.validation_error e) db = validation_error_message e (database db)
    message CreateDatabaseError.database_already_exists db =
        codes "Database " ++ (db ++ codes " already exists.")
    message (CreateDatabaseError.my_sql_error e) db = my_sql_message e

    type_of : CreateDatabaseError → Text
    type_of (CreateDatabaseError.validation_error e) = validation_error_type e
    type_of CreateDatabaseError.database_already_exists = codes "database-already-exists"
    type_of (CreateDatabaseError.my_sql_error e) = codes "mysql-error"

instance drop_database_error : CommandError DropDatabaseError MySqlDatabase
drop_database_error = record { to_error_message = message; error_type = type_of }
  where
    message : DropDatabaseError → MySqlDatabase → Text
    message (DropDatabaseError.validation_error e) db = validation_error_message e (database db)
    message DropDatabaseError.database_does_not_exist db =
        codes "Database " ++ (db ++ codes " does not exist.")
    message (DropDatabaseError.my_sql_error e) db = my_sql_message e

    type_of : DropDatabaseError → Text
    type_of (DropDatabaseError.validation_error e) = validation_error_type e
    type_of DropDatabaseError.database_does_not_exist = codes "database-does-not-exist"
    type_of (DropDatabaseError.my_sql_error e) = codes "mysql-error"

instance create_user_error : CommandError CreateUserError MySqlUser
create_user_error = record { to_error_message = message; error_type = type_of }
  where
    message : CreateUserError → MySqlUser → Text
    message (CreateUserError.validation_error e) u = validation_error_message e (user u)
    message CreateUserError.user_already_exists u = user_message u (codes "already exists.")
    message (CreateUserError.my_sql_error e) u = my_sql_message e

    type_of : CreateUserError → Text
    type_of (CreateUserError.validation_error e) = validation_error_type e
    type_of CreateUserError.user_already_exists = codes "user-already-exists"
    type_of (CreateUserError.my_sql_error e) = codes "mysql-error"

instance drop_user_error : CommandError DropUserError MySqlUser
drop_user_error = record { to_error_message = message; error_type = type_of }
  where
    message : DropUserError → MySqlUser → Text
    message (DropUserError.validation_error e) u = validation_error_message e (user u)
    message DropUserError.user_does_not_exist u = user_message u (codes "does not exist.")
    message (DropUserError.my_sql_error e) u = my_sql_message e

    type_of : DropUserError → Text
    type_of (DropUserError.validation_error e) = validation_error_type e
    type_of DropUserError.user_does_not_exist = codes "user-does-not-exist"
    type_of (DropUserError.my_sql_error e) = codes "mysql-error"

instance lock_user_error : CommandError LockUserError MySqlUser
lock_user_error = record { to_error_message = message; error_type = type_of }
  where
    message : LockUserError → MySqlUser → Text
    message (LockUserError.validation_error e) u = validation_error_message e (user u)
    message LockUserError.user_does_not_exist u = user_message u (codes "does not exist.")
    message LockUserError.user_is_already_locked u = user_message u (codes "is already locked.")
    message (LockUserError.my_sql_error e) u = my_sql_message e

    type_of : LockUserError → Text
    type_of (LockUserError.validation_error e) = validation_error_type e
    type_of LockUserError.user_does_not_exist = codes "user-does-not-exist"
    type_of LockUserError.user_is_already_locked = codes "user-is-already-locked"
    type_of (LockUserError.my_sql_error e) = codes "mysql-error"

instance unlock_user_error : CommandError UnlockUserError MySqlUser
unlock_user_error = record { to_error_message = message; error_type = type_of }
  where
    message : UnlockUserError → MySqlUser → Text
    message (UnlockUserError.validation_error e) u = validation_error_message e (user u)
    message UnlockUserError.user_does_not_exist u = user_message u (codes "does not exist.")
    message UnlockUserError.user_is_already_unlocked u =
        user_message u (codes "is already unlocked.")
    message (UnlockUserError.my_sql_error e) u = my_sql_message e

    type_of : UnlockUserError → Text
    type_of (UnlockUserError.validation_error e) = validation_error_type e
    type_of UnlockUserError.user_does_not_exist = codes "user-does-not-exist"
    type_of UnlockUserError.user_is_already_unlocked = codes "user-is-already-unlocked"
    type_of (UnlockUserError.my_sql_error e) = codes "mysql-error"

instance set_password_error : CommandError SetPasswordError MySqlUser
set_password_error = record { to_error_message = message; error_type = type_of }
  where
    message : SetPasswordError → MySqlUser → Text
    message (SetPasswordError.validation_error e) u = validation_error_message e (user u)
    message SetPasswordError.user_does_not_exist u = user_message u (codes "does not exist.")
    message (SetPasswordError.my_sql_error e) u = my_sql_message e

    type_of : SetPasswordError → Text
    type_of (SetPasswordError.validation_error e) = validation_error_type e
    type_of SetPasswordError.user_does_not_exist = codes "user-does-not-exist"
    type_of (SetPasswordError.my_sql_error e) = codes "mysql-error"

instance list_databases_error : CommandError ListDatabasesError MySqlDatabase
list_databases_error = record { to_error_message = message; error_type = type_of }
  where
    message : ListDatabasesError → MySqlDatabase → Text
    message (ListDatabasesError.validation_error e) db = validation_error_message e (database db)
    message ListDatabasesError.database_does_not_exist db =
        database_message db (codes "does not exist.")
    message (ListDatabasesError.my_sql_error e) db = my_sql_message e

    type_of : ListDatabasesError → Text
    type_of (ListDatabasesError.validation_error e) = validation_error_type e
    type_of ListDatabasesError.database_does_not_exist = codes "database-does-not-exist"
    type_of (ListDatabasesError.my_sql_error e) = codes "mysql-error"

instance list_users_error : CommandError ListUsersError MySqlUser
list_users_error = record { to_error_message = message; error_type = type_of }
  where
    message : ListUsersError → MySqlUser → Text
    message (ListUsersError.validation_error e) u = validation_error_message e (user u)
    message ListUsersError.user_does_not_exist u = user_message u (codes "does not exist.")
    message (ListUsersError.my_sql_error e) u = my_sql_message e

    type_of : ListUsersError → Text
    type_of (ListUsersError.validation_error e) = validation_error_type e
    type_of ListUsersError.user_does_not_exist = codes "user-does-not-exist"
    type_of (ListUsersError.my_sql_error e) = codes "mysql-error"

instance list_privileges_error : CommandError ListPrivilegesError MySqlDatabase
list_privileges_error = record { to_error_message = message; error_type = type_of }
  where
    message : ListPrivilegesError → MySqlDatabase → Text
    message (ListPrivilegesError.validation_error e) db = validation_error_message e (database db)
    message ListPrivilegesError.database_does_not_exist db =
        database_message db (codes "does not exist.")
    message (ListPrivilegesError.my_sql_error e) db = my_sql_message e

    type_of : ListPrivilegesError → Text
    type_of (ListPrivilegesError.validation_error e) = validation_error_type e
    type_of ListPrivilegesError.database_does_not_exist = codes "database-does-not-exist"
    type_of (ListPrivilegesError.my_sql_error e) = codes "mysql-error"

-- The lists of all have no name.
instance list_all_databases_error : CommandError ListAllDatabasesError (Unit {0})
list_all_databases_error = record {
  to_error_message = message;
  error_type = λ e. codes "mysql-error";
}
  where
    message : ListAllDatabasesError → Unit {0} → Text
    message (ListAllDatabasesError.my_sql_error e) u = my_sql_message e

-- The lists of all have no name.
instance list_all_users_error : CommandError ListAllUsersError (Unit {0})
list_all_users_error = record { to_error_message = message; error_type = λ e. codes "mysql-error" }
  where
    message : ListAllUsersError → Unit {0} → Text
    message (ListAllUsersError.my_sql_error e) u = my_sql_message e

-- The lists of all have no name.
instance list_all_privileges_error : CommandError ListAllPrivilegesError (Unit {0})
list_all_privileges_error = record {
  to_error_message = message;
  error_type = λ e. codes "mysql-error";
}
  where
    message : ListAllPrivilegesError → Unit {0} → Text
    message (ListAllPrivilegesError.my_sql_error e) u = my_sql_message e

abbrev diff_error_type : DiffDoesNotApplyError → Text
diff_error_type (DiffDoesNotApplyError.row_already_exists db u) = codes "row-already-exists"
diff_error_type (DiffDoesNotApplyError.row_does_not_exist db u) = codes "row-does-not-exist"
diff_error_type (DiffDoesNotApplyError.row_privilege_change_does_not_apply diff row) =
    codes "row-privilege-change-does-not-apply"

module _ (debug_diff : DatabasePrivilegeRowDiff → Text)
    (debug_row : DatabasePrivilegeRow → Text) where
  abbrev diff_error_message : DiffDoesNotApplyError → Text
  diff_error_message (DiffDoesNotApplyError.row_already_exists db u) =
      codes "Privileges for user '"
      ++ (u ++ (codes "' on database '" ++ (db ++ codes "' already exist.")))
  diff_error_message (DiffDoesNotApplyError.row_does_not_exist db u) =
      codes "Privileges for user '"
      ++ (u ++ (codes "' on database '" ++ (db ++ codes "' do not exist.")))
  diff_error_message (DiffDoesNotApplyError.row_privilege_change_does_not_apply diff row) =
      codes "Could not apply privilege change "
      ++ (debug_diff diff ++ (codes " to row " ++ debug_row row))

  abbrev pub modify_error_message : ModifyDatabasePrivilegesError → MySqlDatabase → MySqlUser → Text
  modify_error_message (ModifyDatabasePrivilegesError.database_validation_error e) db u =
      validation_error_message e (database db)
  modify_error_message (ModifyDatabasePrivilegesError.user_validation_error e) db u =
      validation_error_message e (user u)
  modify_error_message ModifyDatabasePrivilegesError.database_does_not_exist db u =
      database_message db (codes "does not exist.")
  modify_error_message ModifyDatabasePrivilegesError.user_does_not_exist db u =
      user_message u (codes "does not exist.")
  modify_error_message (ModifyDatabasePrivilegesError.diff_does_not_apply e) db u =
      codes "Could not apply privilege change:\n" ++ diff_error_message e
  modify_error_message (ModifyDatabasePrivilegesError.my_sql_error e) db u = my_sql_message e

abbrev pub modify_error_type : ModifyDatabasePrivilegesError → Text
modify_error_type (ModifyDatabasePrivilegesError.database_validation_error e) =
    validation_error_type e ++ codes "/database"
modify_error_type (ModifyDatabasePrivilegesError.user_validation_error e) =
    validation_error_type e ++ codes "/user"
modify_error_type ModifyDatabasePrivilegesError.database_does_not_exist =
    codes "database-does-not-exist"
modify_error_type ModifyDatabasePrivilegesError.user_does_not_exist = codes "user-does-not-exist"
modify_error_type (ModifyDatabasePrivilegesError.diff_does_not_apply e) =
    codes "diff-does-not-apply/" ++ diff_error_type e
modify_error_type (ModifyDatabasePrivilegesError.my_sql_error e) = codes "mysql-error"

-- The error that a type of errors names.
validation_error_of : Text → Option ValidationError
validation_error_of s =
    if text_eq s (codes "name-validation-error/empty-string")
    then some (name_validation_error empty_string)
    else if text_eq s (codes "name-validation-error/invalid-characters")
    then some (name_validation_error invalid_characters)
    else if text_eq s (codes "name-validation-error/too-long")
    then some (name_validation_error too_long)
    else if text_eq s (codes "authorization-error/illegal-prefix")
    then some (authorization_error illegal_prefix)
    else if text_eq s (codes "authorization-error/string-empty")
    then some (authorization_error string_empty)
    else if text_eq s (codes "authorization-error/denylist-error")
    then some (authorization_error denylist_error)
    else none

validation_error_of-type :
    (e : ValidationError) → validation_error_of (validation_error_type e) ≡ some e
unfolding validation_error_of text_eq
validation_error_of-type (name_validation_error empty_string) = refl
validation_error_of-type (name_validation_error invalid_characters) = refl
validation_error_of-type (name_validation_error too_long) = refl
validation_error_of-type (authorization_error illegal_prefix) = refl
validation_error_of-type (authorization_error string_empty) = refl
validation_error_of-type (authorization_error denylist_error) = refl

-- The types tell the errors of the validation apart.
pub validation_error_type_injective :
    (e f : ValidationError) → validation_error_type e ≡ validation_error_type f → e ≡ f
validation_error_type_injective e f h =
    let same : some e ≡ some f =
      sym (validation_error_of-type e) ∙ ap validation_error_of h ∙ validation_error_of-type f in
    cc

-- The items line by line, and how many more there are.
unfoldable pub format_possibly_truncated_list : List Text → ℕ → Text
unfolding decimal join
format_possibly_truncated_list items total_count =
    let joined = join (codes "\n") items in
    let remaining = total_count - length items in
    if ltb 0 remaining
    then (if is_empty_list joined then joined else joined ++ codes "\n")
      ++ (codes "... (" ++ (decimal remaining ++ codes " more)"))
    else joined
