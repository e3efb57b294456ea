-- ===== src/Privileges/Cli.antt =====
-- core/database_privileges/cli.rs: the edits of privileges on the command line, their parser and
-- printer, and the diffs that they stand for.
pub mod Parse
pub mod Changes
mod Tests
use muscl.Prelude.{
  ℕ, Bool, true, false, not, Option, none, some, List, [], ◌∷◌, ◌++◌, ◌==◌, any, keep,
  is_empty_list, Result, ok, err, ◌>>=◌, if◌then◌else◌,
}
use muscl.Prelude.Text.{Text, codes}
use muscl.Prelude.Words.{split}
use muscl.Privileges.Row.{MySqlDatabase, MySqlUser}
use muscl.Privileges.RowDiff.{DatabasePrivilegeRowDiff, no_changes}
use muscl.Privileges.RowDiff.Change.{DatabasePrivilegeChange, yes_to_no, no_to_yes}

abbrev pub valid_privilege_edit_chars : Text
valid_privilege_edit_chars = codes "siudcDaItlrvVTA"

pub data DatabasePrivilegeEditEntryType : Type 0 where
  add set remove : DatabasePrivilegeEditEntryType

-- The field `type_` of the source.
pub record DatabasePrivilegeEdit : Type 0 where
  pub edit_type : DatabasePrivilegeEditEntryType
  pub privileges : Text

-- The messages of the two parsers, by what they report.
pub data EditError : Type 0 where
  invalid_characters invalid_format empty_username : Text → EditError

-- `VALID_PRIVILEGE_EDIT_CHARS.contains(c)`, and membership in the list of an edit.
abbrev pub has_char : Text → ℕ → Bool
has_char [] c = false
has_char (d ∷ s) c = let rest = has_char s c in if d == c then true else rest

abbrev pub is_invalid : ℕ → Bool
is_invalid c = not (has_char valid_privilege_edit_chars c)

-- The two `strip_prefix`es.
abbrev pub split_sign : Text → DatabasePrivilegeEditEntryType × Text
split_sign [] = (set, [])
split_sign (c ∷ s) = if c == b'+' then (add, s) else if c == b'-' then (remove, s) else (set, c ∷ s)

-- `DatabasePrivilegeEdit::parse_from_str`
unfoldable pub parse_edit : Text → Result EditError DatabasePrivilegeEdit
parse_edit input =
    let (edit_type, privileges) = split_sign input in
    if any is_invalid privileges
    then err (invalid_characters (keep is_invalid privileges))
    else ok (record { edit_type = edit_type; privileges = privileges })

abbrev pub sign : DatabasePrivilegeEditEntryType → Text
sign add = codes "+"
sign set = []
sign remove = codes "-"

-- `Display` of `DatabasePrivilegeEdit`
unfoldable pub display_edit : DatabasePrivilegeEdit → Text
display_edit e = sign e.edit_type ++ e.privileges

pub record DatabasePrivilegeEditEntry : Type 0 where
  pub database : MySqlDatabase
  pub user : MySqlUser
  pub privilege_edit : DatabasePrivilegeEdit

unfoldable pub entry_of_parts : Text → List Text → Result EditError DatabasePrivilegeEditEntry
entry_of_parts arg (db ∷ u ∷ user_privs ∷ []) =
    if is_empty_list u
    then err (empty_username arg)
    else (parse_edit user_privs >>= λ e.
        ok (record { database = db; user = u; privilege_edit = e }))
entry_of_parts arg _ = err (invalid_format arg)

-- `DatabasePrivilegeEditEntry::parse_from_str`
unfoldable pub parse_entry : Text → Result EditError DatabasePrivilegeEditEntry
parse_entry arg = entry_of_parts arg (split b':' arg)

-- `Display` of `DatabasePrivilegeEditEntry`
unfoldable pub display_entry : DatabasePrivilegeEditEntry → Text
display_entry e =
    e.database ++ (codes ":, " ++ (e.user ++ (codes ": " ++ display_edit e.privilege_edit)))

-- Every privilege at once: the arm of `A`, and the first diff of `Set`.
abbrev pub all_privileges :
    DatabasePrivilegeChange → DatabasePrivilegeRowDiff → DatabasePrivilegeRowDiff
all_privileges value diff = record {
  db = diff.db;
  user = diff.user;
  select_priv = some value;
  insert_priv = some value;
  update_priv = some value;
  delete_priv = some value;
  create_priv = some value;
  drop_priv = some value;
  alter_priv = some value;
  index_priv = some value;
  create_tmp_table_priv = some value;
  lock_tables_priv = some value;
  references_priv = some value;
  create_view_priv = some value;
  show_view_priv = some value;
  trigger_priv = some value;
}

-- One turn of the loops over the characters; `none` is the panic of `unreachable!()`.
unfoldable pub set_privilege :
    DatabasePrivilegeChange → ℕ → DatabasePrivilegeRowDiff → Option DatabasePrivilegeRowDiff
set_privilege value c diff =
    if c == b's'
    then some (record diff { select_priv = some value })
    else if c == b'i'
    then some (record diff { insert_priv = some value })
    else if c == b'u'
    then some (record diff { update_priv = some value })
    else if c == b'd'
    then some (record diff { delete_priv = some value })
    else if c == b'c'
    then some (record diff { create_priv = some value })
    else if c == b'D'
    then some (record diff { drop_priv = some value })
    else if c == b'a'
    then some (record diff { alter_priv = some value })
    else if c == b'I'
    then some (record diff { index_priv = some value })
    else if c == b't'
    then some (record diff { create_tmp_table_priv = some value })
    else if c == b'l'
    then some (record diff { lock_tables_priv = some value })
    else if c == b'r'
    then some (record diff { references_priv = some value })
    else if c == b'v'
    then some (record diff { create_view_priv = some value })
    else if c == b'V'
    then some (record diff { show_view_priv = some value })
    else if c == b'T'
    then some (record diff { trigger_priv = some value })
    else if c == b'A'
    then some (all_privileges value diff)
    else none

unfoldable pub set_privileges :
    DatabasePrivilegeChange → Text → DatabasePrivilegeRowDiff → Option DatabasePrivilegeRowDiff
unfolding set_privilege
set_privileges value [] diff = some diff
set_privileges value (c ∷ s) diff = elim (set_privilege value c diff) [
  | some changed ↦ set_privileges value s changed
  | none ↦ none
]

-- `as_database_privileges_diff`, by the type of the edit. Its result is `Ok` where it does not panic.
abbrev pub diff_of :
    DatabasePrivilegeEditEntryType
    → Text
    → DatabasePrivilegeRowDiff
    → Option DatabasePrivilegeRowDiff
diff_of set s nothing = set_privileges no_to_yes s (all_privileges yes_to_no nothing)
diff_of add s nothing = set_privileges no_to_yes s nothing
diff_of remove s nothing = set_privileges yes_to_no s nothing

unfoldable pub as_database_privileges_diff :
    DatabasePrivilegeEditEntry → Option DatabasePrivilegeRowDiff
as_database_privileges_diff e =
    diff_of e.privilege_edit.edit_type e.privilege_edit.privileges (no_changes e.database e.user)
