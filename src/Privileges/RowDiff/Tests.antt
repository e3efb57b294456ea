-- ===== src/Privileges/RowDiff/Tests.antt =====
-- Runs of the row diffs, and the theorems about them at sample rows.
use muscl.Prelude.{◌≡◌, refl, true, false, some, ok, err}
use muscl.Prelude.Text.{codes}
use muscl.Privileges.Row.{DatabasePrivilegeRow, no_privileges}
use muscl.Privileges.RowDiff.{
  DatabasePrivilegeRowDiff, from_rows, is_empty, get_privilege_change_by_name, mappend, no_changes,
}
use muscl.Privileges.RowDiff.Change.{yes_to_no, no_to_yes, change_new, merge_change}

abbrev reader : DatabasePrivilegeRow
reader = record (no_privileges (codes "a_db") (codes "a_user")) { select_priv = true }

abbrev writer : DatabasePrivilegeRow
writer = record (no_privileges (codes "a_db") (codes "a_user")) { insert_priv = true }

abbrev grant_select : DatabasePrivilegeRowDiff
grant_select = record (no_changes (codes "a_db") (codes "a_user")) { select_priv = some no_to_yes }

abbrev revoke_both : DatabasePrivilegeRowDiff
revoke_both = record (no_changes (codes "a_db") (codes "a_user")) {
  select_priv = some yes_to_no;
  insert_priv = some yes_to_no;
}

from_rows_run : from_rows reader writer ≡ record (no_changes (codes "a_db") (codes "a_user")) {
  select_priv = some yes_to_no;
  insert_priv = some no_to_yes;
}
unfolding from_rows change_new
from_rows_run = refl

mappend_run : mappend grant_select revoke_both ≡ revoke_both
unfolding mappend merge_change
mappend_run = refl

is_empty_run : is_empty grant_select ≡ false
unfolding is_empty
is_empty_run = refl

change_by_name :
    (get_privilege_change_by_name grant_select (codes "select_priv") ≡ ok (some no_to_yes))
    × (get_privilege_change_by_name grant_select (codes "Db") ≡ err (codes "Db"))
unfolding get_privilege_change_by_name
change_by_name = (refl, refl)
