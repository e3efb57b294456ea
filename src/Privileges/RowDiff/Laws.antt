-- ===== src/Privileges/RowDiff/Laws.antt =====
-- What the methods of `DatabasePrivilegeRowDiff` mean: a diff is a function on rows, `from_rows`
-- is its inverse, and `mappend` is composition.
use muscl.Prelude.{◌≡◌, refl, true, none, Option, arith}
use muscl.Privileges.Row.{MySqlDatabase, MySqlUser, DatabasePrivilegeRow}
use muscl.Privileges.RowDiff.{
  DatabasePrivilegeRowDiff, from_rows, is_empty, mappend, remove_noops, apply, no_changes,
}
use muscl.Privileges.RowDiff.Change.{
  DatabasePrivilegeChange, is_none, apply_change, apply_change-change_new, change_new_self,
  apply_change-merge_change, new_value-eq-change_new, apply_change_idem,
}

-- The two rows are of one database and one user, as the `debug_assert!` of `from_rows` demands.
abbrev pub SameKey : DatabasePrivilegeRow → DatabasePrivilegeRow → Type 0
SameKey a b = (a.db ≡ b.db) × (a.user ≡ b.user)

-- For two rows of one database and user, the diff between them turns the first into the second.
pub apply-from_rows : (a b : DatabasePrivilegeRow) → SameKey a b → apply (from_rows a b) a ≡ b
unfolding apply from_rows
apply-from_rows a b (same_db, same_user) = λ i. record {
  db = same_db i;
  user = same_user i;
  select_priv = apply_change-change_new a.select_priv b.select_priv i;
  insert_priv = apply_change-change_new a.insert_priv b.insert_priv i;
  update_priv = apply_change-change_new a.update_priv b.update_priv i;
  delete_priv = apply_change-change_new a.delete_priv b.delete_priv i;
  create_priv = apply_change-change_new a.create_priv b.create_priv i;
  drop_priv = apply_change-change_new a.drop_priv b.drop_priv i;
  alter_priv = apply_change-change_new a.alter_priv b.alter_priv i;
  index_priv = apply_change-change_new a.index_priv b.index_priv i;
  create_tmp_table_priv = apply_change-change_new a.create_tmp_table_priv b.create_tmp_table_priv i;
  lock_tables_priv = apply_change-change_new a.lock_tables_priv b.lock_tables_priv i;
  references_priv = apply_change-change_new a.references_priv b.references_priv i;
  create_view_priv = apply_change-change_new a.create_view_priv b.create_view_priv i;
  show_view_priv = apply_change-change_new a.show_view_priv b.show_view_priv i;
  trigger_priv = apply_change-change_new a.trigger_priv b.trigger_priv i;
}

-- Applying two diffs in turn is applying their merge.
pub apply-mappend :
    (d e : DatabasePrivilegeRowDiff) (r : DatabasePrivilegeRow)
    → apply (mappend d e) r ≡ apply e (apply d r)
unfolding apply mappend
apply-mappend d e r = λ i. record {
  db = r.db;
  user = r.user;
  select_priv = apply_change-merge_change d.select_priv e.select_priv r.select_priv i;
  insert_priv = apply_change-merge_change d.insert_priv e.insert_priv r.insert_priv i;
  update_priv = apply_change-merge_change d.update_priv e.update_priv r.update_priv i;
  delete_priv = apply_change-merge_change d.delete_priv e.delete_priv r.delete_priv i;
  create_priv = apply_change-merge_change d.create_priv e.create_priv r.create_priv i;
  drop_priv = apply_change-merge_change d.drop_priv e.drop_priv r.drop_priv i;
  alter_priv = apply_change-merge_change d.alter_priv e.alter_priv r.alter_priv i;
  index_priv = apply_change-merge_change d.index_priv e.index_priv r.index_priv i;
  create_tmp_table_priv =
      apply_change-merge_change d.create_tmp_table_priv e.create_tmp_table_priv
        r.create_tmp_table_priv i;
  lock_tables_priv =
      apply_change-merge_change d.lock_tables_priv e.lock_tables_priv r.lock_tables_priv i;
  references_priv =
      apply_change-merge_change d.references_priv e.references_priv r.references_priv i;
  create_view_priv =
      apply_change-merge_change d.create_view_priv e.create_view_priv r.create_view_priv i;
  show_view_priv = apply_change-merge_change d.show_view_priv e.show_view_priv r.show_view_priv i;
  trigger_priv = apply_change-merge_change d.trigger_priv e.trigger_priv r.trigger_priv i;
}

-- For a diff and a row of one database and user, `remove_noops` leaves the exact difference
-- between the row and what the diff makes of it.
pub remove_noops-eq-from_rows :
    (d : DatabasePrivilegeRowDiff) (r : DatabasePrivilegeRow)
    → d.db ≡ r.db
    → d.user ≡ r.user
    → remove_noops d r ≡ from_rows r (apply d r)
unfolding apply remove_noops from_rows
remove_noops-eq-from_rows d r same_db same_user = λ i. record {
  db = same_db i;
  user = same_user i;
  select_priv = new_value-eq-change_new d.select_priv r.select_priv i;
  insert_priv = new_value-eq-change_new d.insert_priv r.insert_priv i;
  update_priv = new_value-eq-change_new d.update_priv r.update_priv i;
  delete_priv = new_value-eq-change_new d.delete_priv r.delete_priv i;
  create_priv = new_value-eq-change_new d.create_priv r.create_priv i;
  drop_priv = new_value-eq-change_new d.drop_priv r.drop_priv i;
  alter_priv = new_value-eq-change_new d.alter_priv r.alter_priv i;
  index_priv = new_value-eq-change_new d.index_priv r.index_priv i;
  create_tmp_table_priv = new_value-eq-change_new d.create_tmp_table_priv r.create_tmp_table_priv i;
  lock_tables_priv = new_value-eq-change_new d.lock_tables_priv r.lock_tables_priv i;
  references_priv = new_value-eq-change_new d.references_priv r.references_priv i;
  create_view_priv = new_value-eq-change_new d.create_view_priv r.create_view_priv i;
  show_view_priv = new_value-eq-change_new d.show_view_priv r.show_view_priv i;
  trigger_priv = new_value-eq-change_new d.trigger_priv r.trigger_priv i;
}

pub apply_idem :
    (d : DatabasePrivilegeRowDiff) (r : DatabasePrivilegeRow) → apply d (apply d r) ≡ apply d r
unfolding apply
apply_idem d r = λ i. record {
  db = r.db;
  user = r.user;
  select_priv = apply_change_idem d.select_priv r.select_priv i;
  insert_priv = apply_change_idem d.insert_priv r.insert_priv i;
  update_priv = apply_change_idem d.update_priv r.update_priv i;
  delete_priv = apply_change_idem d.delete_priv r.delete_priv i;
  create_priv = apply_change_idem d.create_priv r.create_priv i;
  drop_priv = apply_change_idem d.drop_priv r.drop_priv i;
  alter_priv = apply_change_idem d.alter_priv r.alter_priv i;
  index_priv = apply_change_idem d.index_priv r.index_priv i;
  create_tmp_table_priv = apply_change_idem d.create_tmp_table_priv r.create_tmp_table_priv i;
  lock_tables_priv = apply_change_idem d.lock_tables_priv r.lock_tables_priv i;
  references_priv = apply_change_idem d.references_priv r.references_priv i;
  create_view_priv = apply_change_idem d.create_view_priv r.create_view_priv i;
  show_view_priv = apply_change_idem d.show_view_priv r.show_view_priv i;
  trigger_priv = apply_change_idem d.trigger_priv r.trigger_priv i;
}

is_none-eq-none : (c : Option DatabasePrivilegeChange) → is_none c ≡ true → c ≡ none
is_none-eq-none c h = ground arith

-- The `&&` chain of `is_empty`, taken apart from the left.
pub is_empty-eq-no_changes :
    (d : DatabasePrivilegeRowDiff) → is_empty d ≡ true → d ≡ no_changes d.db d.user
unfolding is_empty
is_empty-eq-no_changes d h = ground arith

pub apply-no_changes :
    (db : MySqlDatabase) (user : MySqlUser) (r : DatabasePrivilegeRow)
    → apply (no_changes db user) r ≡ r
unfolding apply apply_change
apply-no_changes db user r = refl

pub from_rows_self : (r : DatabasePrivilegeRow) → from_rows r r ≡ no_changes r.db r.user
unfolding from_rows
from_rows_self r = λ i. record {
  db = r.db;
  user = r.user;
  select_priv = change_new_self r.select_priv i;
  insert_priv = change_new_self r.insert_priv i;
  update_priv = change_new_self r.update_priv i;
  delete_priv = change_new_self r.delete_priv i;
  create_priv = change_new_self r.create_priv i;
  drop_priv = change_new_self r.drop_priv i;
  alter_priv = change_new_self r.alter_priv i;
  index_priv = change_new_self r.index_priv i;
  create_tmp_table_priv = change_new_self r.create_tmp_table_priv i;
  lock_tables_priv = change_new_self r.lock_tables_priv i;
  references_priv = change_new_self r.references_priv i;
  create_view_priv = change_new_self r.create_view_priv i;
  show_view_priv = change_new_self r.show_view_priv i;
  trigger_priv = change_new_self r.trigger_priv i;
}
