-- ===== src/Privileges/Reduce.antt =====
-- core/database_privileges/diff.rs: `reduce_privilege_diffs`, which merges the diffs of one key and
-- drops what changes nothing. The order in which a `HashMap` is iterated has no effect here, since
-- the values go into a `BTreeSet`.
mod Invariant
pub mod Sequential
mod Tests
use muscl.Prelude.{Option, none, some, List, [], ◌∷◌, Result, ok, err, ◌>>=◌, if◌then◌else◌}
use muscl.Prelude.Ordered.{insert}
use muscl.Prelude.HashMap.{lookup, put}
use muscl.Privileges.Row.{DatabasePrivilegeRow}
use muscl.Privileges.RowDiff
use muscl.Privileges.Diff
use muscl.Privileges.Diff.{
  DatabasePrivilegesDiff, new, modified, deleted, noop, MappendError, is_noop, modified_or_noop,
}
use muscl.Privileges.Diff.Order.{diff_ord}
use muscl.Privileges.Tables.{Key, key_Eq, Table, diff_key, lookup_table}

abbrev pub Merged : Type 0
Merged = List (Key × DatabasePrivilegesDiff)

-- The initial `result`: a no-op for every row.
pub noop_entries : Table → Merged
noop_entries [] = []
noop_entries (((db, user), r) ∷ t) = ((db, user), noop db user) ∷ noop_entries t

-- The body of `for diff in to`, with `?` on the error of `mappend`.
pub merge_entry : DatabasePrivilegesDiff → Merged → Result MappendError Merged
merge_entry d m = elim (lookup (diff_key d) m) [
  | some existing ↦ Diff.mappend existing d >>= λ merged. ok (put (diff_key d) merged m)
  | none ↦ ok (put (diff_key d) d m)
]

pub merge_entries : List DatabasePrivilegesDiff → Merged → Result MappendError Merged
unfolding merge_entry
merge_entries [] m = ok m
merge_entries (d ∷ ds) m = merge_entry d m >>= λ m'. merge_entries ds m'

-- The body of `for (key, diff) in &mut result`.
pub reduce_entry : Option DatabasePrivilegeRow → DatabasePrivilegesDiff → DatabasePrivilegesDiff
reduce_entry (some from_row) (modified d) = modified_or_noop (RowDiff.remove_noops d from_row)
reduce_entry _ d = d

pub reduce_entries : Table → Merged → Merged
unfolding reduce_entry
reduce_entries t [] = []
reduce_entries t ((k, d) ∷ m) = (k, reduce_entry (lookup k t) d) ∷ reduce_entries t m

-- The closing `filter` and `collect` into a `BTreeSet`.
pub into_set : Merged → List DatabasePrivilegesDiff → List DatabasePrivilegesDiff
into_set [] result = result
into_set ((k, d) ∷ m) result = into_set m (if is_noop d then result else insert d result)

-- `to` is in the order of its `BTreeSet`.
pub reduce_privilege_diffs :
    List DatabasePrivilegeRow
    → List DatabasePrivilegesDiff
    → Result MappendError (List DatabasePrivilegesDiff)
unfolding noop_entries merge_entries reduce_entries into_set
reduce_privilege_diffs from to =
    let t = lookup_table from in
    merge_entries to (noop_entries t) >>= λ m. ok (into_set (reduce_entries t m) [])
