-- ===== src/Privileges/Cli/Changes.antt =====
-- What the diff of an edit does to a row: each privilege by itself.
use muscl.Prelude.{
  ℕ, ◌≡◌, refl, ◌∙◌, ap, Bool, false, All, any, not, ◌&&◌, ◌||◌, ◌==◌, ==_iff, Option, none, some,
  [], ◌∷◌, Bool-cases, inl, inr, if◌then◌else◌, arith,
}
use muscl.Prelude.Text.{Text}
use muscl.Privileges.Row.{DatabasePrivilegeRow}
use muscl.Privileges.RowDiff.{DatabasePrivilegeRowDiff, apply, no_changes}
use muscl.Privileges.RowDiff.Change.{DatabasePrivilegeChange, yes_to_no, no_to_yes, apply_change}
use muscl.Privileges.Cli.{
  diff_of, DatabasePrivilegeEditEntryType, add, set, remove, DatabasePrivilegeEditEntry, has_char,
  is_invalid, all_privileges, set_privilege, set_privileges, as_database_privileges_diff,
}

-- The text has the letter of the privilege, or the one of all privileges.
abbrev pub names : Text → ℕ → Bool
names s c = has_char s c || has_char s b'A'

change_if :
    Bool → DatabasePrivilegeChange → Option DatabasePrivilegeChange → Option DatabasePrivilegeChange
change_if b value old = if b then some value else old

-- The loop over the characters, one field at a time.
in_fields : DatabasePrivilegeChange → Text → DatabasePrivilegeRowDiff → DatabasePrivilegeRowDiff
unfolding change_if
in_fields value s diff = record {
  db = diff.db;
  user = diff.user;
  select_priv = change_if (names s b's') value diff.select_priv;
  insert_priv = change_if (names s b'i') value diff.insert_priv;
  update_priv = change_if (names s b'u') value diff.update_priv;
  delete_priv = change_if (names s b'd') value diff.delete_priv;
  create_priv = change_if (names s b'c') value diff.create_priv;
  drop_priv = change_if (names s b'D') value diff.drop_priv;
  alter_priv = change_if (names s b'a') value diff.alter_priv;
  index_priv = change_if (names s b'I') value diff.index_priv;
  create_tmp_table_priv = change_if (names s b't') value diff.create_tmp_table_priv;
  lock_tables_priv = change_if (names s b'l') value diff.lock_tables_priv;
  references_priv = change_if (names s b'r') value diff.references_priv;
  create_view_priv = change_if (names s b'v') value diff.create_view_priv;
  show_view_priv = change_if (names s b'V') value diff.show_view_priv;
  trigger_priv = change_if (names s b'T') value diff.trigger_priv;
}

one_character :
    (value : DatabasePrivilegeChange) (c : ℕ) (diff : DatabasePrivilegeRowDiff)
    → is_invalid c ≡ false
    → set_privilege value c diff ≡ some (in_fields value (c ∷ []) diff)
unfolding set_privilege in_fields
one_character value c diff valid = elim (Bool-cases (c == b's')) [
  | inl e ↦ rw ((==_iff c b's').0 e) refl
  | inr e0 ↦ elim (Bool-cases (c == b'i')) [
    | inl e ↦ rw ((==_iff c b'i').0 e) refl
    | inr e1 ↦ elim (Bool-cases (c == b'u')) [
      | inl e ↦ rw ((==_iff c b'u').0 e) refl
      | inr e2 ↦ elim (Bool-cases (c == b'd')) [
        | inl e ↦ rw ((==_iff c b'd').0 e) refl
        | inr e3 ↦ elim (Bool-cases (c == b'c')) [
          | inl e ↦ rw ((==_iff c b'c').0 e) refl
          | inr e4 ↦ elim (Bool-cases (c == b'D')) [
            | inl e ↦ rw ((==_iff c b'D').0 e) refl
            | inr e5 ↦ elim (Bool-cases (c == b'a')) [
              | inl e ↦ rw ((==_iff c b'a').0 e) refl
              | inr e6 ↦ elim (Bool-cases (c == b'I')) [
                | inl e ↦ rw ((==_iff c b'I').0 e) refl
                | inr e7 ↦ elim (Bool-cases (c == b't')) [
                  | inl e ↦ rw ((==_iff c b't').0 e) refl
                  | inr e8 ↦ elim (Bool-cases (c == b'l')) [
                    | inl e ↦ rw ((==_iff c b'l').0 e) refl
                    | inr e9 ↦ elim (Bool-cases (c == b'r')) [
                      | inl e ↦ rw ((==_iff c b'r').0 e) refl
                      | inr e10 ↦ elim (Bool-cases (c == b'v')) [
                        | inl e ↦ rw ((==_iff c b'v').0 e) refl
                        | inr e11 ↦ elim (Bool-cases (c == b'V')) [
                          | inl e ↦ rw ((==_iff c b'V').0 e) refl
                          | inr e12 ↦ elim (Bool-cases (c == b'T')) [
                            | inl e ↦ rw ((==_iff c b'T').0 e) refl
                            | inr e13 ↦ elim (Bool-cases (c == b'A')) [
                              | inl e ↦ rw ((==_iff c b'A').0 e) refl
                              | inr e14 ↦ absurd (ground (arith, valid))
                            ]
                          ]
                        ]
                      ]
                    ]
                  ]
                ]
              ]
            ]
          ]
        ]
      ]
    ]
  ]
]

fuse :
    (value : DatabasePrivilegeChange) (c x : ℕ) (s : Text) (old : Option DatabasePrivilegeChange)
    → change_if (names s x) value (change_if (names (c ∷ []) x) value old)
      ≡ change_if (names (c ∷ s) x) value old
unfolding change_if
fuse value c x s old = ground arith

in_fields-in_fields :
    (value : DatabasePrivilegeChange) (c : ℕ) (s : Text) (diff : DatabasePrivilegeRowDiff)
    → in_fields value s (in_fields value (c ∷ []) diff) ≡ in_fields value (c ∷ s) diff
unfolding in_fields
in_fields-in_fields value c s diff i = record {
  db = diff.db;
  user = diff.user;
  select_priv = fuse value c b's' s diff.select_priv i;
  insert_priv = fuse value c b'i' s diff.insert_priv i;
  update_priv = fuse value c b'u' s diff.update_priv i;
  delete_priv = fuse value c b'd' s diff.delete_priv i;
  create_priv = fuse value c b'c' s diff.create_priv i;
  drop_priv = fuse value c b'D' s diff.drop_priv i;
  alter_priv = fuse value c b'a' s diff.alter_priv i;
  index_priv = fuse value c b'I' s diff.index_priv i;
  create_tmp_table_priv = fuse value c b't' s diff.create_tmp_table_priv i;
  lock_tables_priv = fuse value c b'l' s diff.lock_tables_priv i;
  references_priv = fuse value c b'r' s diff.references_priv i;
  create_view_priv = fuse value c b'v' s diff.create_view_priv i;
  show_view_priv = fuse value c b'V' s diff.show_view_priv i;
  trigger_priv = fuse value c b'T' s diff.trigger_priv i;
}

set_privileges-eq-in_fields :
    (value : DatabasePrivilegeChange) (s : Text) (diff : DatabasePrivilegeRowDiff)
    → All (λ c. is_invalid c ≡ false) s
    → set_privileges value s diff ≡ some (in_fields value s diff)
unfolding set_privileges in_fields change_if
set_privileges-eq-in_fields value [] diff valid = refl
set_privileges-eq-in_fields value (c ∷ s) diff valid =
    rw (one_character value c diff valid.0, set_privileges)
      (set_privileges-eq-in_fields value s (in_fields value (c ∷ []) diff) valid.1
        ∙ ap some (in_fields-in_fields value c s diff))

-- A privilege after an edit: whether it is named and what it was decide.
abbrev pub edited_privilege : DatabasePrivilegeEditEntryType → Bool → Bool → Bool
edited_privilege set named old = named
edited_privilege add named old = old || named
edited_privilege remove named old = old && not named

-- The row after an edit.
pub edited_row : DatabasePrivilegeEditEntryType → Text → DatabasePrivilegeRow → DatabasePrivilegeRow
edited_row t s r = record {
  db = r.db;
  user = r.user;
  select_priv = edited_privilege t (names s b's') r.select_priv;
  insert_priv = edited_privilege t (names s b'i') r.insert_priv;
  update_priv = edited_privilege t (names s b'u') r.update_priv;
  delete_priv = edited_privilege t (names s b'd') r.delete_priv;
  create_priv = edited_privilege t (names s b'c') r.create_priv;
  drop_priv = edited_privilege t (names s b'D') r.drop_priv;
  alter_priv = edited_privilege t (names s b'a') r.alter_priv;
  index_priv = edited_privilege t (names s b'I') r.index_priv;
  create_tmp_table_priv = edited_privilege t (names s b't') r.create_tmp_table_priv;
  lock_tables_priv = edited_privilege t (names s b'l') r.lock_tables_priv;
  references_priv = edited_privilege t (names s b'r') r.references_priv;
  create_view_priv = edited_privilege t (names s b'v') r.create_view_priv;
  show_view_priv = edited_privilege t (names s b'V') r.show_view_priv;
  trigger_priv = edited_privilege t (names s b'T') r.trigger_priv;
}

set_change : (b old : Bool) → apply_change (change_if b no_to_yes (some yes_to_no)) old ≡ b
unfolding change_if apply_change
set_change b old = ground arith

add_change : (b old : Bool) → apply_change (change_if b no_to_yes none) old ≡ (old || b)
unfolding change_if apply_change
add_change b old = ground arith

remove_change : (b old : Bool) → apply_change (change_if b yes_to_no none) old ≡ (old && not b)
unfolding change_if apply_change
remove_change b old = ground arith

apply-in_fields-set :
    (db user s : Text) (r : DatabasePrivilegeRow)
    → apply (in_fields no_to_yes s (all_privileges yes_to_no (no_changes db user))) r
      ≡ edited_row set s r
unfolding apply in_fields edited_row
apply-in_fields-set db user s r i = record {
  db = r.db;
  user = r.user;
  select_priv = set_change (names s b's') r.select_priv i;
  insert_priv = set_change (names s b'i') r.insert_priv i;
  update_priv = set_change (names s b'u') r.update_priv i;
  delete_priv = set_change (names s b'd') r.delete_priv i;
  create_priv = set_change (names s b'c') r.create_priv i;
  drop_priv = set_change (names s b'D') r.drop_priv i;
  alter_priv = set_change (names s b'a') r.alter_priv i;
  index_priv = set_change (names s b'I') r.index_priv i;
  create_tmp_table_priv = set_change (names s b't') r.create_tmp_table_priv i;
  lock_tables_priv = set_change (names s b'l') r.lock_tables_priv i;
  references_priv = set_change (names s b'r') r.references_priv i;
  create_view_priv = set_change (names s b'v') r.create_view_priv i;
  show_view_priv = set_change (names s b'V') r.show_view_priv i;
  trigger_priv = set_change (names s b'T') r.trigger_priv i;
}

apply-in_fields-add :
    (db user s : Text) (r : DatabasePrivilegeRow)
    → apply (in_fields no_to_yes s (no_changes db user)) r ≡ edited_row add s r
unfolding apply in_fields edited_row
apply-in_fields-add db user s r i = record {
  db = r.db;
  user = r.user;
  select_priv = add_change (names s b's') r.select_priv i;
  insert_priv = add_change (names s b'i') r.insert_priv i;
  update_priv = add_change (names s b'u') r.update_priv i;
  delete_priv = add_change (names s b'd') r.delete_priv i;
  create_priv = add_change (names s b'c') r.create_priv i;
  drop_priv = add_change (names s b'D') r.drop_priv i;
  alter_priv = add_change (names s b'a') r.alter_priv i;
  index_priv = add_change (names s b'I') r.index_priv i;
  create_tmp_table_priv = add_change (names s b't') r.create_tmp_table_priv i;
  lock_tables_priv = add_change (names s b'l') r.lock_tables_priv i;
  references_priv = add_change (names s b'r') r.references_priv i;
  create_view_priv = add_change (names s b'v') r.create_view_priv i;
  show_view_priv = add_change (names s b'V') r.show_view_priv i;
  trigger_priv = add_change (names s b'T') r.trigger_priv i;
}

apply-in_fields-remove :
    (db user s : Text) (r : DatabasePrivilegeRow)
    → apply (in_fields yes_to_no s (no_changes db user)) r ≡ edited_row remove s r
unfolding apply in_fields edited_row
apply-in_fields-remove db user s r i = record {
  db = r.db;
  user = r.user;
  select_priv = remove_change (names s b's') r.select_priv i;
  insert_priv = remove_change (names s b'i') r.insert_priv i;
  update_priv = remove_change (names s b'u') r.update_priv i;
  delete_priv = remove_change (names s b'd') r.delete_priv i;
  create_priv = remove_change (names s b'c') r.create_priv i;
  drop_priv = remove_change (names s b'D') r.drop_priv i;
  alter_priv = remove_change (names s b'a') r.alter_priv i;
  index_priv = remove_change (names s b'I') r.index_priv i;
  create_tmp_table_priv = remove_change (names s b't') r.create_tmp_table_priv i;
  lock_tables_priv = remove_change (names s b'l') r.lock_tables_priv i;
  references_priv = remove_change (names s b'r') r.references_priv i;
  create_view_priv = remove_change (names s b'v') r.create_view_priv i;
  show_view_priv = remove_change (names s b'V') r.show_view_priv i;
  trigger_priv = remove_change (names s b'T') r.trigger_priv i;
}

valid_letters : (s : Text) → any is_invalid s ≡ false → All (λ c. is_invalid c ≡ false) s
valid_letters [] h = tt
valid_letters (c ∷ s) h = elim (Bool-cases (is_invalid c)) [
  | inl e ↦ absurd (let no = rw e at h in cc)
  | inr e ↦ (e, valid_letters s (rw e at h))
]

-- If the edit has no other letters than those that the parser lets through, it gives a diff without a
-- panic, and applying the diff to a row sets the privileges that the edit names and takes all others,
-- if the edit has no sign; adds the named ones under a plus; takes them under a minus. `A` names every
-- privilege.
pub apply-as_database_privileges_diff :
    (e : DatabasePrivilegeEditEntry) (r : DatabasePrivilegeRow)
    → any is_invalid e.privilege_edit.privileges ≡ false
    → (d : DatabasePrivilegeRowDiff) × (as_database_privileges_diff e ≡ some d)
      × (apply d r ≡ edited_row e.privilege_edit.edit_type e.privilege_edit.privileges r)
unfolding as_database_privileges_diff
apply-as_database_privileges_diff e r valid =
    by_type e.privilege_edit.edit_type e.privilege_edit.privileges
      (valid_letters e.privilege_edit.privileges valid)
  where
    by_type :
        (t : DatabasePrivilegeEditEntryType) (s : Text)
        → All (λ c. is_invalid c ≡ false) s
        → (d : DatabasePrivilegeRowDiff) × (diff_of t s (no_changes e.database e.user) ≡ some d)
          × (apply d r ≡ edited_row t s r)
    by_type set s valid = (
      _,
      set_privileges-eq-in_fields no_to_yes s _ valid,
      apply-in_fields-set e.database e.user s r,
    )
    by_type add s valid = (
      _,
      set_privileges-eq-in_fields no_to_yes s _ valid,
      apply-in_fields-add e.database e.user s r,
    )
    by_type remove s valid = (
      _,
      set_privileges-eq-in_fields yes_to_no s _ valid,
      apply-in_fields-remove e.database e.user s r,
    )
