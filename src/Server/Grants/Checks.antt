-- ===== src/Server/Grants/Checks.antt =====
-- What `validate_diff` accepts.
use muscl.Prelude.{
  ||_neither, ◌≡◌, ◌↔◌, refl, ap, Bool, false, ◌||◌, any, Option, none, some, ok, arith,
}
use muscl.Prelude.Text.{text_eq}
use muscl.Privileges.Row.{DatabasePrivilegeRow, privilege_fields, get_privilege_by_name}
use muscl.Privileges.RowDiff.{DatabasePrivilegeRowDiff, remove_noops, get_privilege_change_by_name}
use muscl.Privileges.RowDiff.Change.{DatabasePrivilegeChange, new_value}
use muscl.Privileges.Diff.{DatabasePrivilegesDiff, new, modified, deleted, noop}
use muscl.Privileges.Diff.Meaning.{Applies}
use muscl.Server.Grants.{validate_diff_against}
use muscl.Server.Grants.Values.{is_stale, mismatch}

is_stale_iff :
    (c : Option DatabasePrivilegeChange) (b : Bool)
    → (is_stale c (some b) ≡ false) ↔ (new_value c b ≡ c)
unfolding new_value
is_stale_iff c b = ground arith

or_false_of : {a b : Bool} → a ≡ false → b ≡ false → (a || b) ≡ false
or_false_of h k = ground arith

module _ (d : DatabasePrivilegeRowDiff) (r : DatabasePrivilegeRow) where
  -- No field is stale.
  fresh_fields : any (mismatch d r) privilege_fields ≡ false → remove_noops d r ≡ d
  unfolding mismatch get_privilege_by_name get_privilege_change_by_name text_eq remove_noops
  fresh_fields h0 =
      let (e1, h1) = ||_neither (is_stale d.select_priv (some r.select_priv)) _ h0 in
      let (e2, h2) = ||_neither (is_stale d.insert_priv (some r.insert_priv)) _ h1 in
      let (e3, h3) = ||_neither (is_stale d.update_priv (some r.update_priv)) _ h2 in
      let (e4, h4) = ||_neither (is_stale d.delete_priv (some r.delete_priv)) _ h3 in
      let (e5, h5) = ||_neither (is_stale d.create_priv (some r.create_priv)) _ h4 in
      let (e6, h6) = ||_neither (is_stale d.drop_priv (some r.drop_priv)) _ h5 in
      let (e7, h7) = ||_neither (is_stale d.alter_priv (some r.alter_priv)) _ h6 in
      let (e8, h8) = ||_neither (is_stale d.index_priv (some r.index_priv)) _ h7 in
      let (e9, h9) =
        ||_neither (is_stale d.create_tmp_table_priv (some r.create_tmp_table_priv)) _ h8 in
      let (e10, h10) = ||_neither (is_stale d.lock_tables_priv (some r.lock_tables_priv)) _ h9 in
      let (e11, h11) = ||_neither (is_stale d.references_priv (some r.references_priv)) _ h10 in
      let (e12, h12) = ||_neither (is_stale d.create_view_priv (some r.create_view_priv)) _ h11 in
      let (e13, h13) = ||_neither (is_stale d.show_view_priv (some r.show_view_priv)) _ h12 in
      let (e14, h14) = ||_neither (is_stale d.trigger_priv (some r.trigger_priv)) _ h13 in
      λ i. record {
        db = d.db;
        user = d.user;
        select_priv = (is_stale_iff d.select_priv r.select_priv).0 e1 i;
        insert_priv = (is_stale_iff d.insert_priv r.insert_priv).0 e2 i;
        update_priv = (is_stale_iff d.update_priv r.update_priv).0 e3 i;
        delete_priv = (is_stale_iff d.delete_priv r.delete_priv).0 e4 i;
        create_priv = (is_stale_iff d.create_priv r.create_priv).0 e5 i;
        drop_priv = (is_stale_iff d.drop_priv r.drop_priv).0 e6 i;
        alter_priv = (is_stale_iff d.alter_priv r.alter_priv).0 e7 i;
        index_priv = (is_stale_iff d.index_priv r.index_priv).0 e8 i;
        create_tmp_table_priv =
            (is_stale_iff d.create_tmp_table_priv r.create_tmp_table_priv).0 e9 i;
        lock_tables_priv = (is_stale_iff d.lock_tables_priv r.lock_tables_priv).0 e10 i;
        references_priv = (is_stale_iff d.references_priv r.references_priv).0 e11 i;
        create_view_priv = (is_stale_iff d.create_view_priv r.create_view_priv).0 e12 i;
        show_view_priv = (is_stale_iff d.show_view_priv r.show_view_priv).0 e13 i;
        trigger_priv = (is_stale_iff d.trigger_priv r.trigger_priv).0 e14 i;
      }

  stale_fields : remove_noops d r ≡ d → any (mismatch d r) privilege_fields ≡ false
  unfolding mismatch get_privilege_by_name get_privilege_change_by_name text_eq remove_noops
  stale_fields h =
      or_false_of ((is_stale_iff d.select_priv r.select_priv).1 (ap (λ x. x.select_priv) h)) (
        or_false_of ((is_stale_iff d.insert_priv r.insert_priv).1 (ap (λ x. x.insert_priv) h)) (
          or_false_of ((is_stale_iff d.update_priv r.update_priv).1 (ap (λ x. x.update_priv) h)) (
            or_false_of ((is_stale_iff d.delete_priv r.delete_priv).1 (ap (λ x. x.delete_priv) h)) (
              or_false_of ((is_stale_iff d.create_priv r.create_priv).1 (ap (λ x. x.create_priv) h))
                (or_false_of ((is_stale_iff d.drop_priv r.drop_priv).1 (ap (λ x. x.drop_priv) h)) (
                  or_false_of
                    ((is_stale_iff d.alter_priv r.alter_priv).1 (ap (λ x. x.alter_priv) h))
                    (or_false_of
                      ((is_stale_iff d.index_priv r.index_priv).1 (ap (λ x. x.index_priv) h))
                      (or_false_of
                        ((is_stale_iff d.create_tmp_table_priv r.create_tmp_table_priv).1
                          (ap (λ x. x.create_tmp_table_priv) h))
                        (or_false_of
                          ((is_stale_iff d.lock_tables_priv r.lock_tables_priv).1
                            (ap (λ x. x.lock_tables_priv) h))
                          (or_false_of
                            ((is_stale_iff d.references_priv r.references_priv).1
                              (ap (λ x. x.references_priv) h))
                            (or_false_of
                              ((is_stale_iff d.create_view_priv r.create_view_priv).1
                                (ap (λ x. x.create_view_priv) h))
                              (or_false_of
                                ((is_stale_iff d.show_view_priv r.show_view_priv).1
                                  (ap (λ x. x.show_view_priv) h))
                                (or_false_of
                                  ((is_stale_iff d.trigger_priv r.trigger_priv).1
                                    (ap (λ x. x.trigger_priv) h))
                                  (refl))))))))))))))

-- Every change of the diff changes the row.
abbrev pub ChangesAll : DatabasePrivilegesDiff → Option DatabasePrivilegeRow → Type 0
ChangesAll (modified d) (some r) = remove_noops d r ≡ d
ChangesAll _ _ = Unit

-- `validate_diff` accepts a diff for a row exactly if the diff applies to it, and, where it is a
-- modification, has no change that the row has already.
pub validate_diff_exact :
    (d : DatabasePrivilegesDiff) (row : Option DatabasePrivilegeRow)
    → (validate_diff_against d row ≡ ok tt) ↔ (Applies d row × ChangesAll d row)
unfolding validate_diff_against
validate_diff_exact (new p) none = (λ h. (refl, tt), λ h. refl)
validate_diff_exact (new p) (some r) = (λ h. absurd (cc), λ h. absurd (cc))
validate_diff_exact (modified d) none = (λ h. absurd (cc), λ h. absurd (h.0 refl))
validate_diff_exact (modified d) (some r) =
    (λ h. (λ e. cc, fresh_fields d r (ground arith)), λ h. rw (stale_fields d r h.1) refl)
validate_diff_exact (deleted p) none = (λ h. absurd (cc), λ h. absurd (h.0 refl))
validate_diff_exact (deleted p) (some r) = (λ h. (λ e. cc, tt), λ h. refl)
validate_diff_exact (noop db user) row = (λ h. (tt, tt), λ h. refl)
