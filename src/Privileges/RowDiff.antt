-- ===== src/Privileges/RowDiff.antt =====
-- core/database_privileges/diff.rs: the change of one privilege, and `DatabasePrivilegeRowDiff`,
-- the changes of one row. A method on `&mut self` returns the new value.
pub mod Change
pub mod Laws
mod Tests
use muscl.Prelude.{
  Bool, true, false, Option, none, some, List, [], ◌∷◌, ◌&&◌, if◌then◌else◌, Result, ok, err,
}
use muscl.Prelude.Text.{Text, codes, text_eq}
use muscl.Privileges.Row.{MySqlDatabase, MySqlUser, DatabasePrivilegeRow}
use Change.{DatabasePrivilegeChange, change_new, is_none, merge_change, new_value, apply_change}

pub record DatabasePrivilegeRowDiff : Type 0 where
  pub db : MySqlDatabase
  pub user : MySqlUser
  pub select_priv : Option DatabasePrivilegeChange
  pub insert_priv : Option DatabasePrivilegeChange
  pub update_priv : Option DatabasePrivilegeChange
  pub delete_priv : Option DatabasePrivilegeChange
  pub create_priv : Option DatabasePrivilegeChange
  pub drop_priv : Option DatabasePrivilegeChange
  pub alter_priv : Option DatabasePrivilegeChange
  pub index_priv : Option DatabasePrivilegeChange
  pub create_tmp_table_priv : Option DatabasePrivilegeChange
  pub lock_tables_priv : Option DatabasePrivilegeChange
  pub references_priv : Option DatabasePrivilegeChange
  pub create_view_priv : Option DatabasePrivilegeChange
  pub show_view_priv : Option DatabasePrivilegeChange
  pub trigger_priv : Option DatabasePrivilegeChange

-- `DatabasePrivilegeRowDiff::from_rows`. Its `debug_assert!`, that the rows are of one database
-- and user, is a hypothesis of the theorems that need it.
unfoldable pub from_rows : DatabasePrivilegeRow → DatabasePrivilegeRow → DatabasePrivilegeRowDiff
from_rows row1 row2 = record {
  db = row1.db;
  user = row1.user;
  select_priv = change_new row1.select_priv row2.select_priv;
  insert_priv = change_new row1.insert_priv row2.insert_priv;
  update_priv = change_new row1.update_priv row2.update_priv;
  delete_priv = change_new row1.delete_priv row2.delete_priv;
  create_priv = change_new row1.create_priv row2.create_priv;
  drop_priv = change_new row1.drop_priv row2.drop_priv;
  alter_priv = change_new row1.alter_priv row2.alter_priv;
  index_priv = change_new row1.index_priv row2.index_priv;
  create_tmp_table_priv = change_new row1.create_tmp_table_priv row2.create_tmp_table_priv;
  lock_tables_priv = change_new row1.lock_tables_priv row2.lock_tables_priv;
  references_priv = change_new row1.references_priv row2.references_priv;
  create_view_priv = change_new row1.create_view_priv row2.create_view_priv;
  show_view_priv = change_new row1.show_view_priv row2.show_view_priv;
  trigger_priv = change_new row1.trigger_priv row2.trigger_priv;
}

unfoldable pub is_empty : DatabasePrivilegeRowDiff → Bool
is_empty d =
    is_none d.select_priv
    && is_none d.insert_priv
    && is_none d.update_priv
    && is_none d.delete_priv
    && is_none d.create_priv
    && is_none d.drop_priv
    && is_none d.alter_priv
    && is_none d.index_priv
    && is_none d.create_tmp_table_priv
    && is_none d.lock_tables_priv
    && is_none d.references_priv
    && is_none d.create_view_priv
    && is_none d.show_view_priv
    && is_none d.trigger_priv

-- An unknown name is the error `Unknown privilege name`, with the name.
unfoldable pub get_privilege_change_by_name :
    DatabasePrivilegeRowDiff → Text → Result Text (Option DatabasePrivilegeChange)
unfolding text_eq
get_privilege_change_by_name d name =
    if text_eq name (codes "select_priv")
    then ok d.select_priv
    else if text_eq name (codes "insert_priv")
    then ok d.insert_priv
    else if text_eq name (codes "update_priv")
    then ok d.update_priv
    else if text_eq name (codes "delete_priv")
    then ok d.delete_priv
    else if text_eq name (codes "create_priv")
    then ok d.create_priv
    else if text_eq name (codes "drop_priv")
    then ok d.drop_priv
    else if text_eq name (codes "alter_priv")
    then ok d.alter_priv
    else if text_eq name (codes "index_priv")
    then ok d.index_priv
    else if text_eq name (codes "create_tmp_table_priv")
    then ok d.create_tmp_table_priv
    else if text_eq name (codes "lock_tables_priv")
    then ok d.lock_tables_priv
    else if text_eq name (codes "references_priv")
    then ok d.references_priv
    else if text_eq name (codes "create_view_priv")
    then ok d.create_view_priv
    else if text_eq name (codes "show_view_priv")
    then ok d.show_view_priv
    else if text_eq name (codes "trigger_priv")
    then ok d.trigger_priv
    else err name

-- `DatabasePrivilegeRowDiff::mappend`: the fields that `other` sets win.
unfoldable pub mappend :
    DatabasePrivilegeRowDiff → DatabasePrivilegeRowDiff → DatabasePrivilegeRowDiff
mappend d other = record {
  db = d.db;
  user = d.user;
  select_priv = merge_change d.select_priv other.select_priv;
  insert_priv = merge_change d.insert_priv other.insert_priv;
  update_priv = merge_change d.update_priv other.update_priv;
  delete_priv = merge_change d.delete_priv other.delete_priv;
  create_priv = merge_change d.create_priv other.create_priv;
  drop_priv = merge_change d.drop_priv other.drop_priv;
  alter_priv = merge_change d.alter_priv other.alter_priv;
  index_priv = merge_change d.index_priv other.index_priv;
  create_tmp_table_priv = merge_change d.create_tmp_table_priv other.create_tmp_table_priv;
  lock_tables_priv = merge_change d.lock_tables_priv other.lock_tables_priv;
  references_priv = merge_change d.references_priv other.references_priv;
  create_view_priv = merge_change d.create_view_priv other.create_view_priv;
  show_view_priv = merge_change d.show_view_priv other.show_view_priv;
  trigger_priv = merge_change d.trigger_priv other.trigger_priv;
}

unfoldable pub remove_noops :
    DatabasePrivilegeRowDiff → DatabasePrivilegeRow → DatabasePrivilegeRowDiff
remove_noops d from = record {
  db = d.db;
  user = d.user;
  select_priv = new_value d.select_priv from.select_priv;
  insert_priv = new_value d.insert_priv from.insert_priv;
  update_priv = new_value d.update_priv from.update_priv;
  delete_priv = new_value d.delete_priv from.delete_priv;
  create_priv = new_value d.create_priv from.create_priv;
  drop_priv = new_value d.drop_priv from.drop_priv;
  alter_priv = new_value d.alter_priv from.alter_priv;
  index_priv = new_value d.index_priv from.index_priv;
  create_tmp_table_priv = new_value d.create_tmp_table_priv from.create_tmp_table_priv;
  lock_tables_priv = new_value d.lock_tables_priv from.lock_tables_priv;
  references_priv = new_value d.references_priv from.references_priv;
  create_view_priv = new_value d.create_view_priv from.create_view_priv;
  show_view_priv = new_value d.show_view_priv from.show_view_priv;
  trigger_priv = new_value d.trigger_priv from.trigger_priv;
}

unfoldable pub apply : DatabasePrivilegeRowDiff → DatabasePrivilegeRow → DatabasePrivilegeRow
apply d base = record {
  db = base.db;
  user = base.user;
  select_priv = apply_change d.select_priv base.select_priv;
  insert_priv = apply_change d.insert_priv base.insert_priv;
  update_priv = apply_change d.update_priv base.update_priv;
  delete_priv = apply_change d.delete_priv base.delete_priv;
  create_priv = apply_change d.create_priv base.create_priv;
  drop_priv = apply_change d.drop_priv base.drop_priv;
  alter_priv = apply_change d.alter_priv base.alter_priv;
  index_priv = apply_change d.index_priv base.index_priv;
  create_tmp_table_priv = apply_change d.create_tmp_table_priv base.create_tmp_table_priv;
  lock_tables_priv = apply_change d.lock_tables_priv base.lock_tables_priv;
  references_priv = apply_change d.references_priv base.references_priv;
  create_view_priv = apply_change d.create_view_priv base.create_view_priv;
  show_view_priv = apply_change d.show_view_priv base.show_view_priv;
  trigger_priv = apply_change d.trigger_priv base.trigger_priv;
}

-- The diff that changes nothing.
abbrev pub no_changes : MySqlDatabase → MySqlUser → DatabasePrivilegeRowDiff
no_changes db user = record {
  db = db;
  user = user;
  select_priv = none;
  insert_priv = none;
  update_priv = none;
  delete_priv = none;
  create_priv = none;
  drop_priv = none;
  alter_priv = none;
  index_priv = none;
  create_tmp_table_priv = none;
  lock_tables_priv = none;
  references_priv = none;
  create_view_priv = none;
  show_view_priv = none;
  trigger_priv = none;
}
