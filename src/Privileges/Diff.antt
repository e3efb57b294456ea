-- ===== src/Privileges/Diff.antt =====
-- core/database_privileges/diff.rs: `DatabasePrivilegesDiff` and its `mappend`.
pub mod Order
pub mod Meaning
mod Tests
use muscl.Prelude.{Bool, true, false, ◌&&◌, if◌then◌else◌, Result, ok, err}
use muscl.Privileges.Row.{MySqlDatabase, MySqlUser, DatabasePrivilegeRow}
use muscl.Privileges.RowDiff
use muscl.Privileges.RowDiff.{DatabasePrivilegeRowDiff}

pub data DatabasePrivilegesDiff : Type 0 where
  new : DatabasePrivilegeRow → DatabasePrivilegesDiff
  modified : DatabasePrivilegeRowDiff → DatabasePrivilegesDiff
  deleted : DatabasePrivilegeRow → DatabasePrivilegesDiff
  noop : MySqlDatabase → MySqlUser → DatabasePrivilegesDiff

abbrev pub get_database_name : DatabasePrivilegesDiff → MySqlDatabase
get_database_name (new p) = p.db
get_database_name (modified p) = p.db
get_database_name (deleted p) = p.db
get_database_name (noop db user) = db

abbrev pub get_user_name : DatabasePrivilegesDiff → MySqlUser
get_user_name (new p) = p.user
get_user_name (modified p) = p.user
get_user_name (deleted p) = p.user
get_user_name (noop db user) = user

-- The messages of the two `bail!`s of `mappend`.
pub data MappendError : Type 0 where
  cannot_modify_deleted cannot_create_existing : MappendError

abbrev is_new : DatabasePrivilegesDiff → Bool
is_new (new p) = true
is_new _ = false

abbrev is_modified : DatabasePrivilegesDiff → Bool
is_modified (modified p) = true
is_modified _ = false

abbrev is_deleted : DatabasePrivilegesDiff → Bool
is_deleted (deleted p) = true
is_deleted _ = false

abbrev pub is_noop : DatabasePrivilegesDiff → Bool
is_noop (noop db user) = true
is_noop _ = false

-- `*self = DatabasePrivilegesDiff::Noop { db, user }` where the row diff has become empty.
abbrev pub modified_or_noop : DatabasePrivilegeRowDiff → DatabasePrivilegesDiff
modified_or_noop d = if RowDiff.is_empty d then noop d.db d.user else modified d

-- The closing `match (&self, other)`.
merge_changes : DatabasePrivilegesDiff → DatabasePrivilegesDiff → DatabasePrivilegesDiff
merge_changes (new r) (modified m) = new (RowDiff.apply m r)
merge_changes (modified d) (modified m) = modified_or_noop (RowDiff.mappend d m)
merge_changes (modified d) (deleted p) = deleted p
merge_changes (new r) (deleted p) = noop r.db r.user
merge_changes d other = d

-- `DatabasePrivilegesDiff::mappend`, with the new value of `self` as the result.
unfoldable pub mappend :
    DatabasePrivilegesDiff → DatabasePrivilegesDiff → Result MappendError DatabasePrivilegesDiff
unfolding merge_changes
mappend d other =
    if is_deleted d && is_modified other
    then err cannot_modify_deleted
    else if is_new d && is_new other
    then err cannot_create_existing
    else if is_modified d && is_new other
    then err cannot_create_existing
    else if is_noop d
    then ok other
    else if is_noop other
    then ok d
    else ok (merge_changes d other)
