-- ===== src/Server/Grants.antt =====
-- server/sql/database_privilege_operations.rs: reading the privileges of databases and applying
-- diffs to them, with the errors of core/protocol/commands/modify_privileges.rs and
-- list_privileges.rs. The list of all privileges is in Server/Lists. The writes to the log are left
-- out.
pub mod Values
pub mod Checks
pub mod Effects
mod Syntax
mod Table
mod Statements
mod Rows
mod Memory
pub mod Refines
pub mod EndToEnd
mod Tests
use muscl.Prelude.{
  ℕ, Bool, false, not, any, map, Option, none, some, List, [], ◌∷◌, ◌++◌, Result, ok, err, map_err,
  if◌then◌else◌,
}
use muscl.Prelude.Text.{Text, codes}
use muscl.Prelude.Ordered.{text_ord, insert_at, get}
use muscl.Privileges.Row.{
  yn, MySqlDatabase, MySqlUser, DatabasePrivilegeRow, database_privilege_fields, privilege_fields,
  get_privilege_by_name,
}
use muscl.Privileges.RowDiff.{DatabasePrivilegeRowDiff, get_privilege_change_by_name}
use muscl.Privileges.Diff.{
  DatabasePrivilegesDiff, new, modified, deleted, noop, get_database_name, get_user_name,
}
use muscl.Privileges.Tables.{Key, diff_key}
use muscl.Validation.{database, user, ValidationError}
use muscl.Server.Sql.{quote_identifier}
use muscl.Server.Connection.{
  Action, Connection, Session, validate, done, fail, lift, guard, map_failure, ◌>>=◌, ◌>>◌,
  for_each,
}
use muscl.Server.Databases.{unsafe_database_exists}
use muscl.Server.Users.{unsafe_user_exists}
use muscl.Prelude.Words.{join}
use Values.{key_ord, map_change, mismatch}

pub data DiffDoesNotApplyError : Type 0 where
  row_already_exists row_does_not_exist : MySqlDatabase → MySqlUser → DiffDoesNotApplyError
  row_privilege_change_does_not_apply :
      DatabasePrivilegeRowDiff → DatabasePrivilegeRow → DiffDoesNotApplyError

pub data ModifyDatabasePrivilegesError : Type 0 where
  database_validation_error user_validation_error : ValidationError → ModifyDatabasePrivilegesError
  database_does_not_exist user_does_not_exist : ModifyDatabasePrivilegesError
  diff_does_not_apply : DiffDoesNotApplyError → ModifyDatabasePrivilegesError
  my_sql_error : Text → ModifyDatabasePrivilegesError

pub data ListPrivilegesError : Type 0 where
  validation_error : ValidationError → ListPrivilegesError
  database_does_not_exist : ListPrivilegesError
  my_sql_error : Text → ListPrivilegesError

abbrev columns : Text
columns = join (codes ",") (map quote_identifier database_privilege_fields)

pub privileges_query : Text
privileges_query = codes "SELECT " ++ (columns ++ codes " FROM `db` WHERE `Db` = ?")

pub privilege_query : Text
privilege_query =
    codes "SELECT "
    ++ (columns ++ codes " FROM `db` WHERE `Db` = ? AND `User` = ? AND `Host` = '%'")

unfoldable pub unsafe_get_database_privileges :
    {S : Type 0} → Connection S → MySqlDatabase → Action S Text (List DatabasePrivilegeRow)
unsafe_get_database_privileges connection database_name =
    connection.fetch_privileges privileges_query (database_name ∷ [])

unfoldable pub unsafe_get_database_privileges_for_db_user_pair :
    {S : Type 0}
    → Connection S
    → MySqlDatabase
    → MySqlUser
    → Action S Text (Option DatabasePrivilegeRow)
unsafe_get_database_privileges_for_db_user_pair connection database_name user_name =
    connection.fetch_privilege privilege_query (database_name ∷ user_name ∷ [])

-- The statements of `unsafe_apply_privilege_diff`, and the values bound to them.
pub insert_statement : Text
insert_statement =
    codes "INSERT INTO `db` ("
    ++ (join (codes ",") (map quote_identifier (database_privilege_fields ++ codes "Host" ∷ []))
        ++ (codes ") VALUES ("
            ++ (join (codes ",")
                  (map (λ _. codes "?") (database_privilege_fields ++ codes "Host" ∷ []))
                ++ codes ")")))

pub insert_values : DatabasePrivilegeRow → List (Option Text)
insert_values p =
    some p.db
    ∷ some p.user
    ∷ some (yn p.select_priv)
    ∷ some (yn p.insert_priv)
    ∷ some (yn p.update_priv)
    ∷ some (yn p.delete_priv)
    ∷ some (yn p.create_priv)
    ∷ some (yn p.drop_priv)
    ∷ some (yn p.alter_priv)
    ∷ some (yn p.index_priv)
    ∷ some (yn p.create_tmp_table_priv)
    ∷ some (yn p.lock_tables_priv)
    ∷ some (yn p.references_priv)
    ∷ some (yn p.create_view_priv)
    ∷ some (yn p.show_view_priv)
    ∷ some (yn p.trigger_priv)
    ∷ some (codes "%")
    ∷ []

pub update_statement : Text
update_statement =
    codes "UPDATE `db` SET "
    ++ (join (codes ",") (map coalesce privilege_fields)
        ++ codes " WHERE `Db` = ? AND `User` = ? AND `Host` = ?")
  where
    coalesce : Text → Text
    coalesce field =
        quote_identifier field ++ (codes " = COALESCE(?, " ++ (quote_identifier field ++ codes ")"))

pub update_values : DatabasePrivilegeRowDiff → List (Option Text)
update_values p =
    map_change p.select_priv
    ∷ map_change p.insert_priv
    ∷ map_change p.update_priv
    ∷ map_change p.delete_priv
    ∷ map_change p.create_priv
    ∷ map_change p.drop_priv
    ∷ map_change p.alter_priv
    ∷ map_change p.index_priv
    ∷ map_change p.create_tmp_table_priv
    ∷ map_change p.lock_tables_priv
    ∷ map_change p.references_priv
    ∷ map_change p.create_view_priv
    ∷ map_change p.show_view_priv
    ∷ map_change p.trigger_priv
    ∷ some p.db
    ∷ some p.user
    ∷ some (codes "%")
    ∷ []

pub delete_statement : Text
delete_statement = codes "DELETE FROM `db` WHERE `Db` = ? AND `User` = ? AND `Host` = ?"

unfoldable pub unsafe_apply_privilege_diff :
    {S : Type 0} → Connection S → DatabasePrivilegesDiff → Action S Text (Unit {0})
unsafe_apply_privilege_diff connection (new p) =
    connection.execute insert_statement (insert_values p)
unsafe_apply_privilege_diff connection (modified p) =
    connection.execute update_statement (update_values p)
unsafe_apply_privilege_diff connection (deleted p) =
    connection.execute delete_statement (some p.db ∷ some p.user ∷ some (codes "%") ∷ [])
unsafe_apply_privilege_diff connection (noop db' user') = done tt

-- The `match` of `validate_diff`, on the row that the server has.
unfoldable pub validate_diff_against :
    DatabasePrivilegesDiff
    → Option DatabasePrivilegeRow
    → Result ModifyDatabasePrivilegesError (Unit {0})
validate_diff_against (new p) (some row) =
    err (diff_does_not_apply (row_already_exists p.db p.user))
validate_diff_against (new p) none = ok tt
validate_diff_against (modified d) none = err (diff_does_not_apply (row_does_not_exist d.db d.user))
validate_diff_against (modified d) (some row) =
    if any (mismatch d row) privilege_fields
    then err (diff_does_not_apply (row_privilege_change_does_not_apply d row))
    else ok tt
validate_diff_against (deleted p) none = err (diff_does_not_apply (row_does_not_exist p.db p.user))
validate_diff_against (deleted p) (some row) = ok tt
validate_diff_against (noop db' user') _ = ok tt

unfoldable pub validate_diff :
    {S : Type 0}
    → Connection S
    → DatabasePrivilegesDiff
    → Action S ModifyDatabasePrivilegesError (Unit {0})
validate_diff connection diff =
    map_failure ModifyDatabasePrivilegesError.my_sql_error (
      unsafe_get_database_privileges_for_db_user_pair connection (get_database_name diff)
        (get_user_name diff))
    >>= λ privilege_row. lift (validate_diff_against diff privilege_row)

-- The closing regrouping of the results by the database.
abbrev pub inner : {R : Type 0} → Option (List (MySqlUser × R)) → List (MySqlUser × R)
inner none = []
inner (some m) = m

unfoldable pub group_into :
    {R : Type 0}
    → List (Key × R)
    → List (MySqlDatabase × List (MySqlUser × R))
    → List (MySqlDatabase × List (MySqlUser × R))
group_into [] result = result
group_into (((db, u), r) ∷ m) result =
    group_into m (insert_at db (insert_at u r (inner (get db result))) result)

abbrev pub ModifyPrivilegesResponse : Type 0
ModifyPrivilegesResponse =
    List (MySqlDatabase × List (MySqlUser × Result ModifyDatabasePrivilegesError (Unit {0})))

module _ {S : Type 0} (session : Session S) where
  -- The body of the loop of `apply_privilege_diffs`.
  unfoldable pub apply_diff :
      DatabasePrivilegesDiff → Action S ModifyDatabasePrivilegesError (Unit {0})
  apply_diff diff =
      lift (map_err user_validation_error (validate session (database (get_database_name diff))))
      >> (lift (map_err user_validation_error (validate session (user (get_user_name diff))))
          >> (map_failure ModifyDatabasePrivilegesError.my_sql_error
                (unsafe_database_exists session.connection (get_database_name diff))
              >>= λ exists.
                  guard (not exists) ModifyDatabasePrivilegesError.database_does_not_exist
                  >> (map_failure ModifyDatabasePrivilegesError.my_sql_error
                        (unsafe_user_exists session.connection (get_user_name diff))
                      >>= λ user_exists.
                          guard (not user_exists) user_does_not_exist
                          >> (validate_diff session.connection diff
                              >> map_failure ModifyDatabasePrivilegesError.my_sql_error
                                  (unsafe_apply_privilege_diff session.connection diff)))))

  abbrev pub results_of :
      List DatabasePrivilegesDiff
      → S
      → List (Key × Result ModifyDatabasePrivilegesError (Unit {0})) × S
  results_of diffs = for_each diff_key apply_diff diffs []

  -- An error of `FLUSH PRIVILEGES` is only logged.
  unfoldable pub apply_privilege_diffs :
      List DatabasePrivilegesDiff → S → ModifyPrivilegesResponse × S
  apply_privilege_diffs diffs s =
      let (results, s') = results_of diffs s in
      (group_into results [], (session.connection.execute (codes "FLUSH PRIVILEGES") [] s').1)

  -- The body of the loop of `get_databases_privilege_data`.
  unfoldable pub get_database_privilege_data :
      MySqlDatabase → Action S ListPrivilegesError (List DatabasePrivilegeRow)
  get_database_privilege_data database_name =
      lift
        (map_err ListPrivilegesError.validation_error (validate session (database database_name)))
      >> (map_failure ListPrivilegesError.my_sql_error
            (unsafe_database_exists session.connection database_name)
          >>= λ exists.
              guard (not exists) ListPrivilegesError.database_does_not_exist
              >> map_failure ListPrivilegesError.my_sql_error
                  (unsafe_get_database_privileges session.connection database_name))

  -- The closing `debug_assert!`, that there are as many results as names, fails for a list that
  -- repeats a name, and is left out.
  unfoldable pub get_databases_privilege_data :
      List MySqlDatabase
      → S
      → List (MySqlDatabase × Result ListPrivilegesError (List DatabasePrivilegeRow)) × S
  get_databases_privilege_data database_names =
      for_each (λ n. n) get_database_privilege_data database_names []
