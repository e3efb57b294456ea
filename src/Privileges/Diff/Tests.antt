-- ===== src/Privileges/Diff/Tests.antt =====
-- Runs of the merge of diffs, and its theorems at sample diffs.
use muscl.Prelude.{◌≡◌, refl, true, none, some, ok, err}
use muscl.Prelude.Text.{codes}
use muscl.Privileges.Row.{DatabasePrivilegeRow, no_privileges}
use muscl.Privileges.RowDiff.{DatabasePrivilegeRowDiff, no_changes}
use muscl.Privileges.RowDiff.Change.{no_to_yes}
use muscl.Privileges.Diff.{DatabasePrivilegesDiff, new, modified, cannot_create_existing, mappend}
use muscl.Privileges.Diff.Meaning.{act, mappend-act}

abbrev row : DatabasePrivilegeRow
row = no_privileges (codes "a_db") (codes "a_user")

abbrev other : DatabasePrivilegeRow
other = record row { drop_priv = true }

abbrev grant : DatabasePrivilegeRowDiff
grant = record (no_changes (codes "a_db") (codes "a_user")) { select_priv = some no_to_yes }

create_twice : mappend (new row) (new other) ≡ err cannot_create_existing
unfolding mappend
create_twice = refl

mappend-act_example :
    (m : DatabasePrivilegesDiff) × (mappend (new row) (modified grant) ≡ ok m)
    × (act m none ≡ act (modified grant) (act (new row) none))
mappend-act_example = mappend-act (new row) (modified grant) none tt refl (λ e. cc)
