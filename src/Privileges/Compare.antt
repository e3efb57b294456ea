-- ===== src/Privileges/Compare.antt =====
-- core/database_privileges/diff.rs: `diff_privileges`, the difference of two lists of rows, and
-- `create_or_modify_privilege_rows`, which turns the edits of the command line into diffs.
pub mod Exact
pub mod Transform
pub mod Edits
mod Tests
use muscl.Prelude.{Bool, false, Option, none, some, List, [], ◌∷◌, if◌then◌else◌}
use muscl.Prelude.Ordered.{insert}
use muscl.Prelude.HashMap.{lookup}
use muscl.Privileges.Row.{DatabasePrivilegeRow, no_privileges}
use muscl.Privileges.RowDiff
use muscl.Privileges.RowDiff.{DatabasePrivilegeRowDiff}
use muscl.Privileges.Diff.{DatabasePrivilegesDiff, new, modified, deleted}
use muscl.Privileges.Diff.Order.{diff_ord}
use muscl.Privileges.Tables.{key_Eq, Table, row_key, lookup_table}

abbrev Diffs : Type 0
Diffs = List DatabasePrivilegesDiff

-- The body of `for p in to`.
pub diff_to_row : Table → DatabasePrivilegeRow → Diffs → Diffs
diff_to_row t p result = elim (lookup (row_key p) t) [
  | some old_p ↦
      let diff = RowDiff.from_rows old_p p in
      if RowDiff.is_empty diff then result else insert (modified diff) result
  | none ↦ insert (new p) result
]

pub diff_to : Table → List DatabasePrivilegeRow → Diffs → Diffs
unfolding diff_to_row
diff_to t [] result = result
diff_to t (p ∷ ps) result = diff_to t ps (diff_to_row t p result)

-- The body of `for p in from`.
pub diff_from_row : Table → DatabasePrivilegeRow → Diffs → Diffs
diff_from_row t p result = elim (lookup (row_key p) t) [
  | some new_p ↦ result
  | none ↦ insert (deleted p) result
]

pub diff_from : Table → List DatabasePrivilegeRow → Diffs → Diffs
unfolding diff_from_row
diff_from t [] result = result
diff_from t (p ∷ ps) result = diff_from t ps (diff_from_row t p result)

unfoldable pub diff_privileges : List DatabasePrivilegeRow → List DatabasePrivilegeRow → Diffs
unfolding diff_to diff_from lookup_table
diff_privileges from to = diff_from (lookup_table to) from (diff_to (lookup_table from) to [])

-- The body of `for diff in to` of `create_or_modify_privilege_rows`.
pub create_or_modify_row : Table → DatabasePrivilegeRowDiff → Diffs → Diffs
create_or_modify_row t diff result = elim (lookup (diff.db, diff.user) t) [
  | some old_p ↦
      let modified_diff = RowDiff.remove_noops diff old_p in
      if RowDiff.is_empty modified_diff then result else insert (modified modified_diff) result
  | none ↦ insert (new (RowDiff.apply diff (no_privileges diff.db diff.user))) result
]

pub create_or_modify : Table → List DatabasePrivilegeRowDiff → Diffs → Diffs
unfolding create_or_modify_row
create_or_modify t [] result = result
create_or_modify t (d ∷ ds) result = create_or_modify t ds (create_or_modify_row t d result)

-- The `Ok` of the result is left out: no path of the function fails. `to` is in the order of its
-- `BTreeSet`.
pub create_or_modify_privilege_rows :
    List DatabasePrivilegeRow → List DatabasePrivilegeRowDiff → Diffs
unfolding create_or_modify lookup_table
create_or_modify_privilege_rows from to = create_or_modify (lookup_table from) to []
