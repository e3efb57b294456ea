-- ===== src/Server/Grants/Tests.antt =====
-- Runs of the operations on privileges, and their theorems at sample requests.
use muscl.Prelude.{true, err, ◌≡◌, ◌⊎◌, ◌↔◌, refl, none, List, [], ◌∷◌, keep, ok}
use muscl.Prelude.Text.{codes}
use muscl.Prelude.Ordered.{text_ord, insert}
use muscl.Privileges.Row.{DatabasePrivilegeRow, no_privileges}
use muscl.Privileges.State.{apply_one, apply_all}
use muscl.Server.Grants.Memory.{memory_session, memory-ServesGrants}
use muscl.Server.Sql.{quote_identifier, replace}
use muscl.Server.Grants.Syntax.{read_statement}
use muscl.Server.Grants.Table.{Table, privileges, meaning, selected, is_y, row_reader}
use muscl.Server.Grants.Refines.{Fits, applied, apply_diff-refines, apply_privilege_diffs-refines}
use muscl.Denylist.{matches}
use muscl.Validation.{
  validate_name, validate_authorization_by_unix_user, validate_authorization_by_group_denylist,
  validate_db_or_user_request,
}
use muscl.Server.Databases.{unsafe_database_exists}
use muscl.Server.Users.{unsafe_user_exists}
use muscl.Privileges.Compare.{diff_privileges}
use muscl.Privileges.Tables.{view}
use muscl.Server.Grants.EndToEnd.{apply_privilege_diffs-reaches}
use muscl.Server.Grants.{
  insert_statement, insert_values, privilege_query, validate_diff, unsafe_apply_privilege_diff,
  unsafe_get_database_privileges_for_db_user_pair, apply_diff, ModifyDatabasePrivilegesError,
}
use muscl.Privileges.Diff.{DatabasePrivilegesDiff, new}
use muscl.Privileges.Diff.Meaning.{Applies}
use muscl.Server.Connection.{validate}
use muscl.Prelude.HashMap.{lookup, put}
use muscl.Prelude.Text.{text_eq, starts_with}
use muscl.Privileges.Tables.{IsKeyed, lookup_table, key_eq}
use muscl.Server.Recorder.{alice_session}
use muscl.Server.Grants.{apply_privilege_diffs, validate_diff_against}
use muscl.Prelude.Words.{join}
use muscl.Server.Grants.Checks.{ChangesAll, validate_diff_exact}
use muscl.Server.Grants.Effects.{is_valid_diff, apply_privilege_diffs-keep}

abbrev alice_row : DatabasePrivilegeRow
alice_row = no_privileges (codes "alice_old") (codes "alice_old")

abbrev sent : List DatabasePrivilegesDiff
sent =
    new (no_privileges (codes "alice_old") (codes "alice_old"))
    ∷ new (no_privileges (codes "alice_old") (codes "bob"))
    ∷ []

joined : join (codes ",") (codes "a" ∷ codes "b" ∷ codes "c" ∷ []) ≡ codes "a,b,c"
unfolding join
joined = refl

validate_diff_exact_example :
    (validate_diff_against (new (no_privileges (codes "alice_d") (codes "alice_u"))) none ≡ ok tt)
    ↔ (Applies (new (no_privileges (codes "alice_d") (codes "alice_u"))) none
        × ChangesAll (new (no_privileges (codes "alice_d") (codes "alice_u"))) none)
validate_diff_exact_example =
    validate_diff_exact (new (no_privileges (codes "alice_d") (codes "alice_u"))) none

apply_privilege_diffs-keep_example :
    (apply_privilege_diffs alice_session sent []).1
    ≡ (apply_privilege_diffs alice_session (keep (is_valid_diff alice_session) sent) []).1
apply_privilege_diffs-keep_example = apply_privilege_diffs-keep alice_session sent []

abbrev empty_table : Table
empty_table k = none

apply_diff-refines_example :
    (((apply_diff memory_session (new alice_row) empty_table).0 ≡ ok tt)
      × Fits (new alice_row) (privileges empty_table)
      × (privileges (apply_diff memory_session (new alice_row) empty_table).1
          ≡ apply_one (new alice_row) (privileges empty_table)))
    ⊎ ((e : ModifyDatabasePrivilegesError) × ((apply_diff memory_session
            (new alice_row)
            empty_table).0
          ≡ err e)
        × (privileges (apply_diff memory_session (new alice_row) empty_table).1
            ≡ privileges empty_table))
apply_diff-refines_example =
    apply_diff-refines memory_session (λ t. t) memory-ServesGrants (new alice_row) empty_table

apply_privilege_diffs-refines_example :
    privileges (apply_privilege_diffs memory_session sent empty_table).1
    ≡ apply_all (applied memory_session sent empty_table) (privileges empty_table)
apply_privilege_diffs-refines_example =
    apply_privilege_diffs-refines memory_session (λ t. t) memory-ServesGrants sent empty_table

-- The rows of the client, with none on the server, are created.
abbrev wanted : List DatabasePrivilegeRow
wanted = record alice_row { select_priv = true } ∷ []

wanted-IsKeyed : IsKeyed wanted
unfolding lookup_table lookup put key_eq text_eq
wanted-IsKeyed = (refl, tt)

reached : applied memory_session (diff_privileges [] wanted) empty_table ≡ diff_privileges [] wanted
unfolding insert diff_privileges lookup_table lookup put key_eq apply_diff validate
    validate_db_or_user_request validate_name validate_authorization_by_unix_user
    validate_authorization_by_group_denylist starts_with text_eq matches unsafe_database_exists
    unsafe_user_exists validate_diff validate_diff_against
    unsafe_get_database_privileges_for_db_user_pair unsafe_apply_privilege_diff read_statement
    meaning selected is_y row_reader insert_statement insert_values privilege_query quote_identifier
    replace join
reached = refl

apply_privilege_diffs-reaches_example :
    privileges
      (apply_privilege_diffs memory_session (diff_privileges [] wanted) empty_table).1
      (codes "alice_old", codes "alice_old")
    ≡ view wanted (codes "alice_old", codes "alice_old")
unfolding lookup lookup_table
apply_privilege_diffs-reaches_example =
    apply_privilege_diffs-reaches memory_session (λ t. t) memory-ServesGrants [] wanted empty_table
      (codes "alice_old", codes "alice_old") tt wanted-IsKeyed reached refl
