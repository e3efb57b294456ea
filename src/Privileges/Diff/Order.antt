-- ===== src/Privileges/Diff/Order.antt =====
-- The derived `Ord` of `DatabasePrivilegesDiff`, by which a `BTreeSet` of diffs is iterated: the
-- variants in the order of the declaration, then the fields.
use Prim.Native.Nat.{compare, Ordering}
use muscl.Prelude.{
  ℕ, zero, suc, ◌≡◌, refl, ap, Bool, true, false, Option, none, some, List, [], ◌∷◌, arith,
}
use muscl.Prelude.Text.{Text}
use muscl.Prelude.Ordered.{Ord, then_cmp, cmp_list, cmp_list-eq, cmp_list_refl}
use muscl.Privileges.Row.{DatabasePrivilegeRow}
use muscl.Privileges.RowDiff.{DatabasePrivilegeRowDiff}
use muscl.Privileges.RowDiff.Change.{DatabasePrivilegeChange, yes_to_no, no_to_yes}
use muscl.Privileges.Diff.{
  DatabasePrivilegesDiff, new, modified, deleted, noop, get_database_name, get_user_name,
}

abbrev bit : Bool → ℕ
bit false = 0
bit true = 1

abbrev change_rank : Option DatabasePrivilegeChange → ℕ
change_rank none = 0
change_rank (some yes_to_no) = 1
change_rank (some no_to_yes) = 2

abbrev pub rank : DatabasePrivilegesDiff → ℕ
rank (new p) = 0
rank (modified p) = 1
rank (deleted p) = 2
rank (noop db user) = 3

abbrev row_fields : DatabasePrivilegeRow → List ℕ
row_fields r =
    bit r.select_priv
    ∷ bit r.insert_priv
    ∷ bit r.update_priv
    ∷ bit r.delete_priv
    ∷ bit r.create_priv
    ∷ bit r.drop_priv
    ∷ bit r.alter_priv
    ∷ bit r.index_priv
    ∷ bit r.create_tmp_table_priv
    ∷ bit r.lock_tables_priv
    ∷ bit r.references_priv
    ∷ bit r.create_view_priv
    ∷ bit r.show_view_priv
    ∷ bit r.trigger_priv
    ∷ []

abbrev row_diff_fields : DatabasePrivilegeRowDiff → List ℕ
row_diff_fields d =
    change_rank d.select_priv
    ∷ change_rank d.insert_priv
    ∷ change_rank d.update_priv
    ∷ change_rank d.delete_priv
    ∷ change_rank d.create_priv
    ∷ change_rank d.drop_priv
    ∷ change_rank d.alter_priv
    ∷ change_rank d.index_priv
    ∷ change_rank d.create_tmp_table_priv
    ∷ change_rank d.lock_tables_priv
    ∷ change_rank d.references_priv
    ∷ change_rank d.create_view_priv
    ∷ change_rank d.show_view_priv
    ∷ change_rank d.trigger_priv
    ∷ []

abbrev fields : DatabasePrivilegesDiff → List ℕ
fields (new p) = row_fields p
fields (modified p) = row_diff_fields p
fields (deleted p) = row_fields p
fields (noop db user) = []

unfoldable pub cmp_diff : DatabasePrivilegesDiff → DatabasePrivilegesDiff → Ordering
unfolding cmp_list
cmp_diff a b = then_cmp (compare (rank a) (rank b)) (
    then_cmp (cmp_list (get_database_name a) (get_database_name b))
      (then_cmp (cmp_list (get_user_name a) (get_user_name b)) (cmp_list (fields a) (fields b))))

-- A diff is rebuilt from what is compared, so that diffs which compare equal are equal.
abbrev unbit : ℕ → Bool
unbit zero = false
unbit (suc n) = true

abbrev unchange : ℕ → Option DatabasePrivilegeChange
unchange zero = none
unchange (suc zero) = some yes_to_no
unchange (suc (suc n)) = some no_to_yes

abbrev nth : List ℕ → ℕ → ℕ
nth [] i = 0
nth (x ∷ xs) zero = x
nth (x ∷ xs) (suc i) = nth xs i

abbrev to_row : Text → Text → List ℕ → DatabasePrivilegeRow
to_row db user b = record {
  db = db;
  user = user;
  select_priv = unbit (nth b 0);
  insert_priv = unbit (nth b 1);
  update_priv = unbit (nth b 2);
  delete_priv = unbit (nth b 3);
  create_priv = unbit (nth b 4);
  drop_priv = unbit (nth b 5);
  alter_priv = unbit (nth b 6);
  index_priv = unbit (nth b 7);
  create_tmp_table_priv = unbit (nth b 8);
  lock_tables_priv = unbit (nth b 9);
  references_priv = unbit (nth b 10);
  create_view_priv = unbit (nth b 11);
  show_view_priv = unbit (nth b 12);
  trigger_priv = unbit (nth b 13);
}

abbrev to_row_diff : Text → Text → List ℕ → DatabasePrivilegeRowDiff
to_row_diff db user b = record {
  db = db;
  user = user;
  select_priv = unchange (nth b 0);
  insert_priv = unchange (nth b 1);
  update_priv = unchange (nth b 2);
  delete_priv = unchange (nth b 3);
  create_priv = unchange (nth b 4);
  drop_priv = unchange (nth b 5);
  alter_priv = unchange (nth b 6);
  index_priv = unchange (nth b 7);
  create_tmp_table_priv = unchange (nth b 8);
  lock_tables_priv = unchange (nth b 9);
  references_priv = unchange (nth b 10);
  create_view_priv = unchange (nth b 11);
  show_view_priv = unchange (nth b 12);
  trigger_priv = unchange (nth b 13);
}

abbrev to_diff : ℕ → Text → Text → List ℕ → DatabasePrivilegesDiff
to_diff zero db user b = new (to_row db user b)
to_diff (suc zero) db user b = modified (to_row_diff db user b)
to_diff (suc (suc zero)) db user b = deleted (to_row db user b)
to_diff (suc (suc (suc n))) db user b = noop db user

unbit-bit : (b : Bool) → unbit (bit b) ≡ b
unbit-bit true = refl
unbit-bit false = refl

unchange-change_rank : (c : Option DatabasePrivilegeChange) → unchange (change_rank c) ≡ c
unchange-change_rank none = refl
unchange-change_rank (some yes_to_no) = refl
unchange-change_rank (some no_to_yes) = refl

to_row-row_fields : (r : DatabasePrivilegeRow) → to_row r.db r.user (row_fields r) ≡ r
to_row-row_fields r = λ i. record {
  db = r.db;
  user = r.user;
  select_priv = unbit-bit r.select_priv i;
  insert_priv = unbit-bit r.insert_priv i;
  update_priv = unbit-bit r.update_priv i;
  delete_priv = unbit-bit r.delete_priv i;
  create_priv = unbit-bit r.create_priv i;
  drop_priv = unbit-bit r.drop_priv i;
  alter_priv = unbit-bit r.alter_priv i;
  index_priv = unbit-bit r.index_priv i;
  create_tmp_table_priv = unbit-bit r.create_tmp_table_priv i;
  lock_tables_priv = unbit-bit r.lock_tables_priv i;
  references_priv = unbit-bit r.references_priv i;
  create_view_priv = unbit-bit r.create_view_priv i;
  show_view_priv = unbit-bit r.show_view_priv i;
  trigger_priv = unbit-bit r.trigger_priv i;
}

to_row_diff-row_diff_fields :
    (d : DatabasePrivilegeRowDiff) → to_row_diff d.db d.user (row_diff_fields d) ≡ d
to_row_diff-row_diff_fields d = λ i. record {
  db = d.db;
  user = d.user;
  select_priv = unchange-change_rank d.select_priv i;
  insert_priv = unchange-change_rank d.insert_priv i;
  update_priv = unchange-change_rank d.update_priv i;
  delete_priv = unchange-change_rank d.delete_priv i;
  create_priv = unchange-change_rank d.create_priv i;
  drop_priv = unchange-change_rank d.drop_priv i;
  alter_priv = unchange-change_rank d.alter_priv i;
  index_priv = unchange-change_rank d.index_priv i;
  create_tmp_table_priv = unchange-change_rank d.create_tmp_table_priv i;
  lock_tables_priv = unchange-change_rank d.lock_tables_priv i;
  references_priv = unchange-change_rank d.references_priv i;
  create_view_priv = unchange-change_rank d.create_view_priv i;
  show_view_priv = unchange-change_rank d.show_view_priv i;
  trigger_priv = unchange-change_rank d.trigger_priv i;
}

to_diff_lem :
    (d : DatabasePrivilegesDiff)
    → to_diff (rank d) (get_database_name d) (get_user_name d) (fields d) ≡ d
to_diff_lem (new p) = ap new (to_row-row_fields p)
to_diff_lem (modified p) = ap modified (to_row_diff-row_diff_fields p)
to_diff_lem (deleted p) = ap deleted (to_row-row_fields p)
to_diff_lem (noop db user) = refl

then_cmp-eq : (o q : Ordering) → then_cmp o q ≡ Ordering.eq → (o ≡ Ordering.eq) × (q ≡ Ordering.eq)
then_cmp-eq o q h = ground arith

compare-eq : (m n : ℕ) → compare m n ≡ Ordering.eq → m ≡ n
compare-eq m n h = ground arith

compare_refl : (n : ℕ) → compare n n ≡ Ordering.eq
compare_refl n = ground arith

pub cmp_diff-eq : (a b : DatabasePrivilegesDiff) → cmp_diff a b ≡ Ordering.eq → a ≡ b
unfolding cmp_diff
cmp_diff-eq a b h =
    let by_db = cmp_list (get_database_name a) (get_database_name b) in
    let by_user = cmp_list (get_user_name a) (get_user_name b) in
    let by_fields = cmp_list (fields a) (fields b) in
    let e0 =
      then_cmp-eq (compare (rank a) (rank b)) (then_cmp by_db (then_cmp by_user by_fields)) h in
    let e1 = then_cmp-eq by_db (then_cmp by_user by_fields) e0.1 in
    let e2 = then_cmp-eq by_user by_fields e1.1 in
    cc (
      to_diff_lem a,
      to_diff_lem b,
      compare-eq (rank a) (rank b) e0.0,
      cmp_list-eq (get_database_name a) (get_database_name b) e1.0,
      cmp_list-eq (get_user_name a) (get_user_name b) e2.0,
      cmp_list-eq (fields a) (fields b) e2.1,
    )

pub cmp_diff_refl : (a : DatabasePrivilegesDiff) → cmp_diff a a ≡ Ordering.eq
unfolding cmp_diff
cmp_diff_refl a = rw compare_refl (
    rw (
      cmp_list_refl (get_database_name a),
      cmp_list_refl (get_user_name a),
      cmp_list_refl (fields a),
    ))

instance abbrev pub diff_ord : Ord DatabasePrivilegesDiff
diff_ord = record { cmp = cmp_diff; cmp-eq = cmp_diff-eq; cmp_refl = cmp_diff_refl }
