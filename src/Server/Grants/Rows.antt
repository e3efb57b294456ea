-- ===== src/Server/Grants/Rows.antt =====
-- What the changes of the statements on the table `db` make of the privileges for any host: what the
-- diffs make of them.
use mathlib.Core.Path.{fun_ext}
use muscl.Prelude.{
  ◌≡◌, refl, ap, Bool, true, false, Bool-cases, inl, inr, Option, none, some, if◌then◌else◌,
}
use muscl.Prelude.Text.{Text, codes, text_eq, text_eq_iff}
use muscl.Privileges.Row.{yn, DatabasePrivilegeRow, privilege_fields}
use muscl.Privileges.RowDiff.{DatabasePrivilegeRowDiff}
use muscl.Privileges.RowDiff
use muscl.Privileges.RowDiff.Change.{DatabasePrivilegeChange, yes_to_no, no_to_yes, apply_change}
use muscl.Privileges.Diff.{new, modified, deleted, noop}
use muscl.Privileges.Diff.Meaning.{act}
use muscl.Privileges.Tables.{key_eq}
use muscl.Privileges.State.{State, apply_one}
use muscl.Server.Grants.{insert_values, update_values}
use muscl.Server.Grants.Values.{map_change}
use muscl.Server.Grants.Table.{
  Columns, Table, coalesce, at_key, changed_row, assigned, defaults, is_y, read_row, row_of,
  privileges,
}
use muscl.Server.Grants.Statements.{insertion_columns, key_at, removing}

is_y-coalesce :
    (c : Option DatabasePrivilegeChange) (old : Text)
    → is_y (coalesce (map_change c) old) ≡ apply_change c (is_y old)
unfolding is_y text_eq apply_change
is_y-coalesce none old = refl
is_y-coalesce (some yes_to_no) old = refl
is_y-coalesce (some no_to_yes) old = refl

is_y-yn : (b : Bool) → is_y (yn b) ≡ b
unfolding is_y text_eq
is_y-yn true = refl
is_y-yn false = refl

-- The row of the values of an INSERT.
row_of-inserted :
    (p : DatabasePrivilegeRow)
    → row_of p.db p.user (assigned insertion_columns (insert_values p) defaults) ≡ p
unfolding row_of text_eq insert_values
row_of-inserted p i = record {
  db = p.db;
  user = p.user;
  select_priv = is_y-yn p.select_priv i;
  insert_priv = is_y-yn p.insert_priv i;
  update_priv = is_y-yn p.update_priv i;
  delete_priv = is_y-yn p.delete_priv i;
  create_priv = is_y-yn p.create_priv i;
  drop_priv = is_y-yn p.drop_priv i;
  alter_priv = is_y-yn p.alter_priv i;
  index_priv = is_y-yn p.index_priv i;
  create_tmp_table_priv = is_y-yn p.create_tmp_table_priv i;
  lock_tables_priv = is_y-yn p.lock_tables_priv i;
  references_priv = is_y-yn p.references_priv i;
  create_view_priv = is_y-yn p.create_view_priv i;
  show_view_priv = is_y-yn p.show_view_priv i;
  trigger_priv = is_y-yn p.trigger_priv i;
}

-- The row that an UPDATE leaves.
row_of-changed :
    (d : DatabasePrivilegeRowDiff) (db u : Text) (r : Columns)
    → row_of db u (assigned privilege_fields (update_values d) r) ≡ RowDiff.apply d (row_of db u r)
unfolding row_of text_eq update_values RowDiff.apply
row_of-changed d db u r i = record {
  db = db;
  user = u;
  select_priv = is_y-coalesce d.select_priv (r (codes "select_priv")) i;
  insert_priv = is_y-coalesce d.insert_priv (r (codes "insert_priv")) i;
  update_priv = is_y-coalesce d.update_priv (r (codes "update_priv")) i;
  delete_priv = is_y-coalesce d.delete_priv (r (codes "delete_priv")) i;
  create_priv = is_y-coalesce d.create_priv (r (codes "create_priv")) i;
  drop_priv = is_y-coalesce d.drop_priv (r (codes "drop_priv")) i;
  alter_priv = is_y-coalesce d.alter_priv (r (codes "alter_priv")) i;
  index_priv = is_y-coalesce d.index_priv (r (codes "index_priv")) i;
  create_tmp_table_priv =
      is_y-coalesce d.create_tmp_table_priv (r (codes "create_tmp_table_priv")) i;
  lock_tables_priv = is_y-coalesce d.lock_tables_priv (r (codes "lock_tables_priv")) i;
  references_priv = is_y-coalesce d.references_priv (r (codes "references_priv")) i;
  create_view_priv = is_y-coalesce d.create_view_priv (r (codes "create_view_priv")) i;
  show_view_priv = is_y-coalesce d.show_view_priv (r (codes "show_view_priv")) i;
  trigger_priv = is_y-coalesce d.trigger_priv (r (codes "trigger_priv")) i;
}

abbrev seen : Text → Text → Option Columns → Option DatabasePrivilegeRow
seen db u old = read_row (λ (h, d, v) r. row_of d v r) (key_at db u) old

-- A change at a key does to the privileges what it does to the row of the key.
privileges-at_key :
    (f : Option Columns → Option Columns)
    (g : Option DatabasePrivilegeRow → Option DatabasePrivilegeRow) (db u : Text) (table : Table)
    → ((old : Option Columns) → seen db u (f old) ≡ g (seen db u old))
    → (k : Text × Text)
    → privileges (at_key f (key_at db u) table) k
      ≡ (if key_eq (db, u) k then g (privileges table k) else privileges table k)
unfolding key_eq text_eq
privileges-at_key f g db u table h (d, v) = elim (Bool-cases (text_eq db d)) [
  | inr e ↦ rw e refl
  | inl e ↦ rw e (elim (Bool-cases (text_eq u v)) [
    | inr e' ↦ rw e' refl
    | inl e' ↦
        rw e'
          (rw (← (text_eq_iff db d).0 e) (rw (← (text_eq_iff u v).0 e') (h (table (key_at db u)))))
  ])
]

pub insertion-eq-apply_one :
    (p : DatabasePrivilegeRow) (table : Table)
    → privileges (
        at_key
          (λ old. some (assigned insertion_columns (insert_values p) defaults))
          (key_at p.db p.user)
          table)
      ≡ apply_one (new p) (privileges table)
insertion-eq-apply_one p table = fun_ext (
    privileges-at_key (λ old. some (assigned insertion_columns (insert_values p) defaults))
      (act (new p)) p.db p.user table (λ old. ap some (row_of-inserted p)))

seen-changed :
    (d : DatabasePrivilegeRowDiff) (old : Option Columns)
    → seen d.db d.user (changed_row (assigned privilege_fields (update_values d)) old)
      ≡ act (modified d) (seen d.db d.user old)
seen-changed d none = refl
seen-changed d (some r) = ap some (row_of-changed d d.db d.user r)

pub change-eq-apply_one :
    (d : DatabasePrivilegeRowDiff) (table : Table)
    → privileges (
        at_key
          (changed_row (assigned privilege_fields (update_values d)))
          (key_at d.db d.user)
          table)
      ≡ apply_one (modified d) (privileges table)
change-eq-apply_one d table = fun_ext (
    privileges-at_key (changed_row (assigned privilege_fields (update_values d))) (act (modified d))
      d.db d.user table (seen-changed d))

pub removal-eq-apply_one :
    (p : DatabasePrivilegeRow) (table : Table)
    → privileges (removing p table) ≡ apply_one (deleted p) (privileges table)
removal-eq-apply_one p table =
    fun_ext (privileges-at_key (λ old. none) (act (deleted p)) p.db p.user table (λ old. refl))

pub noop-eq-apply_one : (db u : Text) (table : State) → table ≡ apply_one (noop db u) table
noop-eq-apply_one db u table i k = unchanged (key_eq (db, u) k) i
  where
    unchanged : (b : Bool) → table k ≡ (if b then table k else table k)
    unchanged true = refl
    unchanged false = refl
