-- ===== src/Privileges/Editor/Format.antt =====
-- The content that the text editor shows: `format_privileges_line_for_editor` and
-- `generate_editor_content_from_privilege_data` of core/database_privileges/editor.rs.
use muscl.Prelude.{
  ltb, if◌then◌else◌, Bool, Option, none, some, List, [], ◌∷◌, ◌++◌, map, is_empty_list, ℕ,
}
use muscl.Prelude.Text.{Text, codes, len, text_eq}
use muscl.Prelude.Words.{trim, pad, join}
use muscl.Privileges.Row.{
  MySqlDatabase, DatabasePrivilegeRow, database_privilege_fields, get_privilege_by_name,
  db_priv_field_human_readable_name, yn,
}

-- `yn(privs.get_privilege_by_name(privilege).unwrap())`: the fields are known names, for which
-- the `unwrap` does not fail.
abbrev pub privilege_cell : Option Bool → Text
privilege_cell none = []
privilege_cell (some b) = yn b

-- What stands in the column of a field, and the width of the column.
unfoldable pub cell : DatabasePrivilegeRow → ℕ → ℕ → Text → Text × ℕ
unfolding text_eq get_privilege_by_name db_priv_field_human_readable_name
cell privs database_name_len username_len field =
    if text_eq field (codes "Db")
    then (privs.db, database_name_len)
    else if text_eq field (codes "User")
    then (privs.user, username_len)
    else (
      privilege_cell (get_privilege_by_name privs field),
      len (db_priv_field_human_readable_name field),
    )

abbrev pub pad_cell : Text × ℕ → Text
pad_cell (s, width) = pad s width

unfoldable pub format_privileges_line_for_editor : DatabasePrivilegeRow → ℕ → ℕ → Text
unfolding cell join trim
format_privileges_line_for_editor privs database_name_len username_len = trim (
    join (codes " ")
      (map pad_cell (map (cell privs database_name_len username_len) database_privilege_fields)))

unfoldable pub editor_comment : Text
editor_comment =
    codes "\n# Welcome to the privilege editor.\n"
    ++ codes "# Each line defines what privileges a single user has on a single database.\n"
    ++ codes "# The first two columns respectively represent the database name and the user, "
    ++ codes "and the remaining columns are the privileges.\n"
    ++ codes "# If the user should have a certain privilege, write 'Y', otherwise write 'N'.\n"
    ++ codes "#\n# Lines starting with '#' are comments and will be ignored.\n"

-- `max` of core::cmp and `Iterator::max` with `unwrap_or`
abbrev pub max : ℕ → ℕ → ℕ
max m n = if ltb m n then n else m

abbrev pub max_or : ℕ → List ℕ → ℕ
max_or n [] = n
max_or n (m ∷ []) = m
max_or n (m ∷ k ∷ ms) = max m (max_or n (k ∷ ms))

abbrev example_row : MySqlDatabase → Text → DatabasePrivilegeRow
example_row db user = record {
  db = db;
  user = user;
  select_priv = Bool.true;
  insert_priv = Bool.true;
  update_priv = Bool.true;
  delete_priv = Bool.true;
  create_priv = Bool.false;
  drop_priv = Bool.false;
  alter_priv = Bool.false;
  index_priv = Bool.false;
  create_tmp_table_priv = Bool.false;
  lock_tables_priv = Bool.false;
  references_priv = Bool.false;
  create_view_priv = Bool.false;
  show_view_priv = Bool.false;
  trigger_priv = Bool.false;
}

-- The names of the columns, the first two padded to the widths.
abbrev pub pad_header : ℕ → ℕ → List Text → List Text
pad_header m n (db ∷ user ∷ names) = pad db m ∷ pad user n ∷ names
pad_header m n names = names

unfoldable pub header_line : ℕ → ℕ → Text
unfolding db_priv_field_human_readable_name join
header_line m n =
    join (codes " ")
      (pad_header m n (map db_priv_field_human_readable_name database_privilege_fields))

unfoldable pub row_lines : ℕ → ℕ → List DatabasePrivilegeRow → List Text
unfolding format_privileges_line_for_editor
row_lines m n rows = map (λ privs. format_privileges_line_for_editor privs m n) rows

unfoldable pub longest_username : List DatabasePrivilegeRow → Text → ℕ
longest_username rows example_user =
    max (max_or (len example_user) (map (λ p. len (DatabasePrivilegeRow.user p)) rows))
      (len (codes "User"))

unfoldable pub longest_database_name : List DatabasePrivilegeRow → Text → ℕ
longest_database_name rows example_db =
    max (max_or (len example_db) (map (λ p. len (DatabasePrivilegeRow.db p)) rows))
      (len (codes "Database"))

abbrev pub example_database : Text → Option MySqlDatabase → Text
example_database unix_user none = unix_user ++ codes "_db"
example_database unix_user (some db) = db

unfoldable pub generate_editor_content_from_privilege_data :
    List DatabasePrivilegeRow → Text → Option MySqlDatabase → Text
unfolding editor_comment header_line row_lines format_privileges_line_for_editor longest_username
    longest_database_name join
generate_editor_content_from_privilege_data privilege_data unix_user database_name =
    let example_user = unix_user ++ codes "_user" in
    let example_db = example_database unix_user database_name in
    let n = longest_username privilege_data example_user in
    let m = longest_database_name privilege_data example_db in
    let example_line =
      format_privileges_line_for_editor (example_row example_db example_user) m n in
    editor_comment
    ++ (codes "\n"
        ++ (header_line m n
            ++ (codes "\n"
                ++ (if is_empty_list privilege_data
                    then codes "# " ++ example_line
                    else join (codes "\n") (row_lines m n privilege_data)))))
