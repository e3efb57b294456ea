-- ===== src/Privileges/Editor/Parse.antt =====
-- What is read back from the editor: `parse_privilege_row_from_editor` and
-- `parse_privilege_data_from_editor_content` of core/database_privileges/editor.rs.
use muscl.Prelude.{
  ltb, if◌then◌else◌, Bool, Option, none, some, List, [], ◌∷◌, ◌++◌, length, keep, is_empty_list,
  not, Result, ok, err, ◌>>=◌, ℕ, suc, ◌&&◌, ◌||◌, map,
}
use muscl.Prelude.Text.{Text, codes, text_eq, starts_with}
use muscl.Prelude.Words.{trim, words}
use muscl.Prelude.Lines.{lines}
use muscl.Prelude.Decimal.{decimal}
use muscl.Privileges.Row.{
  DatabasePrivilegeRow, database_privilege_fields, db_priv_field_human_readable_name,
}
use muscl.Privileges.Editor.Duplicates.{
  PrivilegeLineError, find_duplicate_privilege_lines, sort_by_line_number, has_number,
}

-- `rev_yn` of core/common.rs: only `Y`, `y`, `N` and `n` have the lower case `y` or `n`.
unfoldable pub rev_yn : Text → Option Bool
unfolding text_eq
rev_yn s =
    if text_eq s (codes "y") || text_eq s (codes "Y")
    then some Bool.true
    else if text_eq s (codes "n") || text_eq s (codes "N")
    then some Bool.false
    else none

pub data PrivilegeRowParseResult : Type 0 where
  privilege_row : DatabasePrivilegeRow → PrivilegeRowParseResult
  -- The message is the chain of contexts, as `{e:#}` writes it.
  parser_error : Text → PrivilegeRowParseResult
  too_few_fields too_many_fields : ℕ → PrivilegeRowParseResult
  header comment empty : PrivilegeRowParseResult

abbrev pub cell_result : Text → Text → Option Bool → Result Text Bool
cell_result s name none = err (
    codes "Could not parse '"
    ++ (db_priv_field_human_readable_name name
        ++ (codes "' privilege: Expected Y or N, found " ++ s)))
cell_result s name (some b) = ok b

unfoldable pub parse_privilege_cell_from_editor : Text → Text → Result Text Bool
unfolding rev_yn db_priv_field_human_readable_name
parse_privilege_cell_from_editor s name = cell_result s name (rev_yn s)

-- `zip` and `all`
abbrev pub all_equal : List Text → List Text → Bool
all_equal (f ∷ fs) (name ∷ names) =
    text_eq f (db_priv_field_human_readable_name name) && all_equal fs names
all_equal fs names = Bool.true

unfoldable pub editor_row_is_header : Text → Bool
unfolding text_eq db_priv_field_human_readable_name
editor_row_is_header row = all_equal (words row) database_privilege_fields

-- The fields of the row in order, each read in turn until one fails.
unfoldable pub row_of_cells : List Text → Result Text DatabasePrivilegeRow
unfolding parse_privilege_cell_from_editor
row_of_cells
      (db ∷ user ∷ cell2 ∷ cell3 ∷ cell4 ∷ cell5 ∷ cell6 ∷ cell7 ∷ cell8 ∷ cell9 ∷ cell10 ∷ cell11
        ∷ cell12 ∷ cell13 ∷ cell14 ∷ cell15 ∷ []) =
    do
      select_priv ← parse_privilege_cell_from_editor cell2 (codes "select_priv")
      insert_priv ← parse_privilege_cell_from_editor cell3 (codes "insert_priv")
      update_priv ← parse_privilege_cell_from_editor cell4 (codes "update_priv")
      delete_priv ← parse_privilege_cell_from_editor cell5 (codes "delete_priv")
      create_priv ← parse_privilege_cell_from_editor cell6 (codes "create_priv")
      drop_priv ← parse_privilege_cell_from_editor cell7 (codes "drop_priv")
      alter_priv ← parse_privilege_cell_from_editor cell8 (codes "alter_priv")
      index_priv ← parse_privilege_cell_from_editor cell9 (codes "index_priv")
      create_tmp_table_priv ←
          parse_privilege_cell_from_editor cell10 (codes "create_tmp_table_priv")
      lock_tables_priv ← parse_privilege_cell_from_editor cell11 (codes "lock_tables_priv")
      references_priv ← parse_privilege_cell_from_editor cell12 (codes "references_priv")
      create_view_priv ← parse_privilege_cell_from_editor cell13 (codes "create_view_priv")
      show_view_priv ← parse_privilege_cell_from_editor cell14 (codes "show_view_priv")
      trigger_priv ← parse_privilege_cell_from_editor cell15 (codes "trigger_priv")
      ok (record {
        db = db;
        user = user;
        select_priv = select_priv;
        insert_priv = insert_priv;
        update_priv = update_priv;
        delete_priv = delete_priv;
        create_priv = create_priv;
        drop_priv = drop_priv;
        alter_priv = alter_priv;
        index_priv = index_priv;
        create_tmp_table_priv = create_tmp_table_priv;
        lock_tables_priv = lock_tables_priv;
        references_priv = references_priv;
        create_view_priv = create_view_priv;
        show_view_priv = show_view_priv;
        trigger_priv = trigger_priv;
      })
-- The lengths are checked before, so that the row has sixteen parts.
row_of_cells parts = err []

abbrev pub cells_result : Result Text DatabasePrivilegeRow → PrivilegeRowParseResult
cells_result (ok row) = privilege_row row
cells_result (err e) = parser_error e

unfoldable pub parse_privilege_row_from_editor : Text → PrivilegeRowParseResult
unfolding starts_with trim editor_row_is_header row_of_cells
parse_privilege_row_from_editor row =
    let parts = words (trim row) in
    let n = length parts in
    let expected = length database_privilege_fields in
    if starts_with row (codes "#") || starts_with row (codes "//")
    then comment
    else if is_empty_list (trim row)
    then empty
    else if ltb n expected
    then too_few_fields n
    else if ltb expected n
    then too_many_fields n
    else if editor_row_is_header row
    then header
    else cells_result (row_of_cells parts)

-- The rows and the errors of the lines, each with the number of its line.
abbrev pub Parsed : Type 0
Parsed = List (ℕ × DatabasePrivilegeRow) × List PrivilegeLineError

abbrev pub with_error : ℕ → Text → Parsed → Parsed
with_error n text (rows, errors) = (rows, record { line_number = n; message = text } ∷ errors)

-- `match parse_privilege_row_from_editor(line)` for one line, before the results of the rest.
unfoldable pub add_result : ℕ → PrivilegeRowParseResult → Parsed → Parsed
unfolding decimal
add_result n (privilege_row row) (rows, errors) = ((n, row) ∷ rows, errors)
add_result n (parser_error e) rest = with_error n e rest
add_result n (too_few_fields k) rest =
    with_error n
      (codes "Too few fields: expected "
        ++ (decimal (length database_privilege_fields) ++ (codes ", found " ++ decimal k)))
      rest
add_result n (too_many_fields k) rest =
    with_error n
      (codes "Too many fields: expected "
        ++ (decimal (length database_privilege_fields) ++ (codes ", found " ++ decimal k)))
      rest
add_result n header rest = rest
add_result n comment rest = rest
add_result n empty rest = rest

-- `for (line_number, line) in content.lines().map(str::trim).enumerate()`
unfoldable pub parse_lines : ℕ → List Text → Parsed
unfolding add_result parse_privilege_row_from_editor trim
parse_lines n [] = ([], [])
parse_lines n (line ∷ rest) =
    add_result n (parse_privilege_row_from_editor (trim line)) (parse_lines (suc n) rest)

-- The rows whose line is not dropped, without the numbers.
abbrev pub kept_rows : List ℕ → List (ℕ × DatabasePrivilegeRow) → List DatabasePrivilegeRow
kept_rows dropped rows = map (λ r. r.1) (keep (λ r. not (has_number r.0 dropped)) rows)

unfoldable pub parse_privilege_data_from_editor_content :
    Text → List DatabasePrivilegeRow × List PrivilegeLineError
unfolding parse_lines find_duplicate_privilege_lines sort_by_line_number
parse_privilege_data_from_editor_content content =
    let (rows, errors) = parse_lines 0 (lines content) in
    let (duplicate_errors, dropped) = find_duplicate_privilege_lines rows in
    (kept_rows dropped rows, sort_by_line_number (errors ++ duplicate_errors))
