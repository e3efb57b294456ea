-- ===== src/Privileges/Compare/Edits.antt =====
-- What the edits of the command line come to: `create_or_modify_privilege_rows` grants and revokes
-- what each edit says, from the row that is there or from a row with no privilege.
use muscl.Prelude.{
  ◌≡◌, ◌≢◌, refl, sym, ◌∙◌, ap, true, Option, none, some, List, [], ◌∷◌, Has, inl, inr,
  Option-cases, arith, if◌then◌else◌,
}
use muscl.Prelude.HashMap.{lookup}
use muscl.Privileges.Row.{DatabasePrivilegeRow, no_privileges}
use muscl.Privileges.RowDiff
use muscl.Privileges.RowDiff.{DatabasePrivilegeRowDiff}
use muscl.Privileges.RowDiff.Laws.{
  apply-from_rows, apply_idem, remove_noops-eq-from_rows, is_empty-eq-no_changes, apply-no_changes,
}
use muscl.Privileges.Diff.{DatabasePrivilegesDiff, new, modified}
use muscl.Privileges.Diff.Meaning.{act}
use muscl.Privileges.Tables.{Key, key_Eq, Table, diff_key, row_key, lookup_table, view}
use muscl.Privileges.Tables.Laws.{view_sound}
use muscl.Privileges.State.{apply_all, apply_all_fixed, apply_all_only}
use muscl.Privileges.Loop.{insert_all, Has-insert_all}
use muscl.Privileges.Compare.{
  create_or_modify_row, create_or_modify, create_or_modify_privilege_rows,
}

abbrev pub edit_key : DatabasePrivilegeRowDiff → Key
edit_key d = (d.db, d.user)

-- The row that an edit asks for.
abbrev pub edited : DatabasePrivilegeRowDiff → Option DatabasePrivilegeRow → DatabasePrivilegeRow
edited d none = RowDiff.apply d (no_privileges d.db d.user)
edited d (some r) = RowDiff.apply d r

abbrev change :
    DatabasePrivilegeRowDiff → Option DatabasePrivilegeRow → Option DatabasePrivilegesDiff
change d none = some (new (edited d none))
change d (some r) =
    if RowDiff.is_empty (RowDiff.remove_noops d r)
    then none
    else some (modified (RowDiff.remove_noops d r))

abbrev changed : Table → DatabasePrivilegeRowDiff → Option DatabasePrivilegesDiff
changed t d = change d (lookup (edit_key d) t)

create_or_modify-eq-insert_all :
    (t : Table) (ds : List DatabasePrivilegeRowDiff) (result : List DatabasePrivilegesDiff)
    → create_or_modify t ds result ≡ insert_all (changed t) ds result
unfolding create_or_modify create_or_modify_row
create_or_modify-eq-insert_all t [] result = refl
create_or_modify-eq-insert_all t (d ∷ ds) result =
    ground (arith, create_or_modify-eq-insert_all t ds (create_or_modify_row t d result))

-- `remove_noops` does not change what a diff does to its row.
pub apply-remove_noops :
    (d : DatabasePrivilegeRowDiff) (r : DatabasePrivilegeRow)
    → row_key r ≡ edit_key d
    → RowDiff.apply (RowDiff.remove_noops d r) r ≡ RowDiff.apply d r
unfolding RowDiff.apply
apply-remove_noops d r key =
    rw
      (remove_noops-eq-from_rows d r (sym (ap (λ (j : Key). j.0) key))
        (sym (ap (λ (j : Key). j.1) key)))
      (apply-from_rows r (RowDiff.apply d r) (refl, refl))

module _ (d : DatabasePrivilegeRowDiff) where
  diff_key-change :
      (old : Option DatabasePrivilegeRow) (x : DatabasePrivilegesDiff)
      → change d old ≡ some x
      → diff_key x ≡ edit_key d
  unfolding RowDiff.apply RowDiff.remove_noops
  diff_key-change none x h = let e : new (edited d none) ≡ x = cc in rw (← e)
  diff_key-change (some r) x h =
      let e : modified (RowDiff.remove_noops d r) ≡ x = ground arith in rw (← e)

  act-change :
      (old : Option DatabasePrivilegeRow) (x : DatabasePrivilegesDiff)
      → ((r : DatabasePrivilegeRow) → old ≡ some r → row_key r ≡ edit_key d)
      → change d old ≡ some x
      → (act x old ≡ some (edited d old)) × (act x (some (edited d old)) ≡ some (edited d old))
  act-change none x key h = let e : new (edited d none) ≡ x = cc in rw (← e) (refl, refl)
  act-change (some r) x key h =
      let e : modified (RowDiff.remove_noops d r) ≡ x = ground arith in
      let forth = apply-remove_noops d r (key r refl) in
      rw (← e) (ap some forth, ap some (cc (forth, apply_idem (RowDiff.remove_noops d r) r)))

  edited_of_no_change :
      (old : Option DatabasePrivilegeRow)
      → ((r : DatabasePrivilegeRow) → old ≡ some r → row_key r ≡ edit_key d)
      → change d old ≡ none
      → old ≡ some (edited d old)
  edited_of_no_change none key h = absurd (ground arith)
  edited_of_no_change (some r) key h =
      let m = RowDiff.remove_noops d r in
      let empty : RowDiff.is_empty m ≡ true = ground arith in
      cc (
        apply-remove_noops d r (key r refl),
        is_empty-eq-no_changes m empty,
        apply-no_changes m.db m.user r,
      )

module _ (from : List DatabasePrivilegeRow) (ds : List DatabasePrivilegeRowDiff) where
  Has-create_or_modify :
      (x : DatabasePrivilegesDiff)
      → Has x (create_or_modify_privilege_rows from ds)
      → (e : DatabasePrivilegeRowDiff) × Has e ds × (change e (view from (edit_key e)) ≡ some x)
  unfolding create_or_modify_privilege_rows
  Has-create_or_modify x h =
      elim ((Has-insert_all (changed (lookup_table from)) x ds []).0
        (rw (create_or_modify-eq-insert_all (lookup_table from) ds []) at h)) [
          | inl none_yet ↦ absurd none_yet
          | inr found ↦ found
        ]

  Has-of_change :
      (e : DatabasePrivilegeRowDiff) (x : DatabasePrivilegesDiff)
      → Has e ds
      → change e (view from (edit_key e)) ≡ some x
      → Has x (create_or_modify_privilege_rows from ds)
  unfolding create_or_modify_privilege_rows
  Has-of_change e x m h =
      rw (create_or_modify-eq-insert_all (lookup_table from) ds [])
        ((Has-insert_all (changed (lookup_table from)) x ds []).1 (inr (e, m, h)))

  -- If the set of edits holds one edit for a database and user, then applying the resulting diffs
  -- leaves there the row that the edit makes of the old row, or of the row with no privilege where
  -- there was none.
  pub create_or_modify_edits :
      (d : DatabasePrivilegeRowDiff)
      → Has d ds
      → ((e : DatabasePrivilegeRowDiff) → Has e ds → edit_key e ≡ edit_key d → e ≡ d)
      → apply_all (create_or_modify_privilege_rows from ds) (view from) (edit_key d)
        ≡ some (edited d (view from (edit_key d)))
  create_or_modify_edits d m only = elim (Option-cases (change d old)) [
    | inl e ↦
        apply_all_fixed result (view from) k (some (edited d old))
          (λ x there key. absurd (ground (arith, same x there key)))
          (edited_of_no_change d old keyed e)
    | inr (x, e) ↦
        let acts = act-change d old x keyed e in
        apply_all_only result (view from) k x old (some (edited d old)) (Has-of_change d x m e)
          (λ y there key. ground (arith, same y there key)) (diff_key-change d old x e) acts.0
          acts.1 refl
  ]
    where
      k : Key
      k = edit_key d

      old : Option DatabasePrivilegeRow
      old = view from k

      result : List DatabasePrivilegesDiff
      result = create_or_modify_privilege_rows from ds

      keyed : (r : DatabasePrivilegeRow) → view from (edit_key d) ≡ some r → row_key r ≡ edit_key d
      keyed r h = (view_sound from (edit_key d) r h).1

      same :
          (x : DatabasePrivilegesDiff)
          → Has x (create_or_modify_privilege_rows from ds)
          → diff_key x ≡ edit_key d
          → change d (view from (edit_key d)) ≡ some x
      same x there key =
          let (e, me, h) = Has-create_or_modify x there in
          let is_d : e ≡ d =
            only e me (sym (diff_key-change e (view from (edit_key e)) x h) ∙ key) in
          rw is_d at h

  -- A database and user that no edit names keeps its row.
  pub create_or_modify_others :
      (k : Key)
      → ((e : DatabasePrivilegeRowDiff) → Has e ds → edit_key e ≢ k)
      → apply_all (create_or_modify_privilege_rows from ds) (view from) k ≡ view from k
  create_or_modify_others k other =
      apply_all_fixed (create_or_modify_privilege_rows from ds) (view from) k (view from k)
        (λ x there key.
          let (e, me, h) = Has-create_or_modify x there in
          absurd (other e me (sym (diff_key-change e (view from (edit_key e)) x h) ∙ key)))
        refl
