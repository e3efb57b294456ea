-- ===== src/Privileges/Reduce/Tests.antt =====
-- Runs of the reduction, and its theorem at sample diffs.
use muscl.Prelude.{◌≡◌, refl, true, some, List, [], ◌∷◌, ok, err, arith}
use muscl.Prelude.Text.{codes, text_eq}
use muscl.Prelude.HashMap.{lookup, put}
use muscl.Privileges.Row.{DatabasePrivilegeRow, no_privileges}
use muscl.Privileges.RowDiff
use muscl.Privileges.RowDiff.{DatabasePrivilegeRowDiff, no_changes}
use muscl.Privileges.RowDiff.Change.{yes_to_no, no_to_yes, merge_change, new_value}
use muscl.Privileges.Diff
use muscl.Privileges.Diff.{DatabasePrivilegesDiff, new, modified, deleted, cannot_create_existing}
use muscl.Privileges.Tables.{Key, key_eq, lookup_table, view}
use muscl.Privileges.State.{apply_all}
use muscl.Privileges.Reduce.{reduce_privilege_diffs}
use muscl.Privileges.Reduce.Invariant.{AllApply, IsRanked}
use muscl.Privileges.Reduce.Sequential.{reduce_privilege_diffs_sequential}

abbrev alice : DatabasePrivilegeRow
alice = record (no_privileges (codes "a_db") (codes "alice")) { select_priv = true }

abbrev bob : DatabasePrivilegeRow
bob = no_privileges (codes "a_db") (codes "bob")

abbrev grant : DatabasePrivilegeRowDiff
grant = record (no_changes (codes "a_db") (codes "alice")) { select_priv = some no_to_yes }

abbrev revoke : DatabasePrivilegeRowDiff
revoke = record (no_changes (codes "a_db") (codes "alice")) { select_priv = some yes_to_no }

abbrev changes : List DatabasePrivilegesDiff
changes = new bob ∷ modified revoke ∷ modified grant ∷ deleted bob ∷ []

-- Revoked and granted again, created and deleted again: nothing is left.
reduce_run : reduce_privilege_diffs (alice ∷ []) changes ≡ ok []
unfolding reduce_privilege_diffs lookup_table lookup put key_eq text_eq Diff.mappend RowDiff.mappend
    RowDiff.is_empty RowDiff.remove_noops merge_change new_value
reduce_run = refl

-- Two edits of one new row are two creations, and the second is refused.
reduce_twice_new :
    reduce_privilege_diffs [] (new bob ∷ new (record bob { select_priv = true }) ∷ [])
    ≡ err cannot_create_existing
unfolding reduce_privilege_diffs lookup_table lookup put key_eq text_eq Diff.mappend
reduce_twice_new = refl

changes-IsRanked : IsRanked changes
changes-IsRanked = omega arith

changes-AllApply : AllApply changes (view (alice ∷ []))
unfolding lookup_table lookup put key_eq text_eq RowDiff.apply
changes-AllApply = (refl, ((λ e. cc), ((λ e. cc), ((λ e. cc), tt))))

reduce_privilege_diffs_sequential_example :
    (result : List DatabasePrivilegesDiff) × (reduce_privilege_diffs (alice ∷ []) changes
      ≡ ok result)
    × ((k : Key) → apply_all result (view (alice ∷ [])) k ≡ apply_all changes (view (alice ∷ [])) k)
reduce_privilege_diffs_sequential_example =
    reduce_privilege_diffs_sequential (alice ∷ []) changes changes-IsRanked changes-AllApply
