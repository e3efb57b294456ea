-- ===== src/Privileges/Editor/Content.antt =====
-- core/database_privileges/editor.rs: the content that is written for the editor is read as the
-- rows it is written for.
use muscl.Prelude.{
  ◌≡◌, refl, ap, ◌∙◌, true, List, [], ◌∷◌, ◌++◌, map, ℕ, suc, All, ◌&&◌, ◌==◌, not, Option,
}
use muscl.Prelude.Text.{Text, codes, starts_with, text_eq}
use muscl.Prelude.Words.{
  join, trim, words, words-trim, trim-All, IsBlankOnly, is_space, is_whitespace,
}
use muscl.Prelude.Lines.{lines, lines_from, strip_return, lines-line, lines-join, IsLine, AreLines}
use muscl.Prelude.Columns.{
  columns, AreWords, AreWords-of, words-columns, columns-IsBlankOnly, columns-IsLine,
}
use muscl.Privileges.Row.{
  MySqlDatabase, DatabasePrivilegeRow, database_privilege_fields, db_priv_field_human_readable_name,
}
use muscl.Privileges.Tables.{key_Eq}
use muscl.Privileges.Editor.Format.{
  cell, example_database, format_privileges_line_for_editor, editor_comment, header_line, row_lines,
  longest_username, longest_database_name, generate_editor_content_from_privilege_data,
}
use muscl.Privileges.Editor.Parse.{
  parse_privilege_row_from_editor, parse_lines, header, add_result, editor_row_is_header, all_equal,
  parse_privilege_data_from_editor_content,
}
use muscl.Privileges.Editor.Duplicates.{sort_by_line_number}
use muscl.Privileges.Editor.Cells.{cells-AreWords}
use muscl.Privileges.Editor.RoundTrip.{
  IsPlainRow, IsStarted, joined, joined-IsStarted, trim-IsStarted, parse_row-format,
  starts_with-trimmed, is_empty_list-IsStarted,
}
use muscl.Privileges.Editor.Single.{
  numbered, AreDistinct, find_duplicates-AreDistinct, kept_rows-numbered,
}

-- The columns of the header.
abbrev header_columns : ℕ → ℕ → List (Text × ℕ)
header_columns m n =
    (codes "Database", m)
    ∷ (codes "User", n)
    ∷ (codes "Select", 0)
    ∷ (codes "Insert", 0)
    ∷ (codes "Update", 0)
    ∷ (codes "Delete", 0)
    ∷ (codes "Create", 0)
    ∷ (codes "Drop", 0)
    ∷ (codes "Alter", 0)
    ∷ (codes "Index", 0)
    ∷ (codes "Temp", 0)
    ∷ (codes "Lock", 0)
    ∷ (codes "References", 0)
    ∷ (codes "CreateView", 0)
    ∷ (codes "ShowView", 0)
    ∷ (codes "Trigger", 0)
    ∷ []

header_line-columns : (m n : ℕ) → header_line m n ≡ join (32 ∷ []) (columns (header_columns m n))
unfolding header_line db_priv_field_human_readable_name text_eq join
header_line-columns m n = refl

-- The comment is eight lines, of which none is a row or an error.
parse_lines-comment :
    (s : Text) → parse_lines 0 (lines (editor_comment ++ (10 ∷ s))) ≡ parse_lines 8 (lines s)
unfolding editor_comment lines_from strip_return parse_lines parse_privilege_row_from_editor
    starts_with trim add_result
parse_lines-comment s = refl

header-AreWords : (m n : ℕ) → AreWords (header_columns m n)
header-AreWords m n = AreWords-of (header_columns m n) refl

header-IsStarted : (m n : ℕ) → IsStarted (header_line m n)
unfolding header_line db_priv_field_human_readable_name text_eq join
header-IsStarted m n = (68, (_, (refl, refl)))

words-header :
    (m n : ℕ)
    → words (header_line m n) ≡ map db_priv_field_human_readable_name database_privilege_fields
unfolding db_priv_field_human_readable_name text_eq
words-header m n =
    ap words (header_line-columns m n) ∙ words-columns (header_columns m n) (header-AreWords m n)

header-IsBlankOnly : (m n : ℕ) → IsBlankOnly (header_line m n)
header-IsBlankOnly m n =
    rw (header_line-columns m n) (columns-IsBlankOnly (header_columns m n) (header-AreWords m n))

-- The header is read as the header.
parse_row-header : (m n : ℕ) → parse_privilege_row_from_editor (trim (header_line m n)) ≡ header
unfolding parse_privilege_row_from_editor editor_row_is_header starts_with
    db_priv_field_human_readable_name text_eq header_line join
parse_row-header m n =
    let s = header_line m n in
    let started = header-IsStarted m n in
    let twice = trim-IsStarted (trim s) (trim-IsStarted s started) in
    let blank = trim-All (λ c. is_whitespace c ≡ is_space c) s (header-IsBlankOnly m n) in
    let parts = words-trim s (header-IsBlankOnly m n) ∙ words-header m n in
    rw
      (
        starts_with-trimmed s (codes "#") started refl,
        starts_with-trimmed s (codes "//") started refl,
        is_empty_list-IsStarted (trim (trim s)) twice,
        words-trim (trim s) blank ∙ parts,
        ap (λ v. all_equal v database_privilege_fields) parts,
      )
      refl

parse_lines-rows :
    (k m n : ℕ) (rows : List DatabasePrivilegeRow)
    → All IsPlainRow rows
    → parse_lines k (row_lines m n rows) ≡ (numbered k rows, [])
unfolding parse_lines row_lines add_result
parse_lines-rows k m n [] h = refl
parse_lines-rows k m n (p ∷ rows) h =
    rw (parse_row-format p m n h.0, parse_lines-rows (suc k) m n rows h.1) refl

row-IsLine :
    (p : DatabasePrivilegeRow) (m n : ℕ)
    → IsPlainRow p
    → IsLine (format_privileges_line_for_editor p m n)
unfolding format_privileges_line_for_editor
row-IsLine p m n (h, k, _, _) =
    trim-All (λ c. not (c == 10) && not (c == 13) ≡ true) (joined p m n)
      (columns-IsLine (map (cell p m n) database_privilege_fields) (cells-AreWords p m n h k))

row_lines-AreLines :
    (m n : ℕ) (rows : List DatabasePrivilegeRow)
    → All IsPlainRow rows
    → AreLines (row_lines m n rows)
unfolding row_lines format_privileges_line_for_editor
row_lines-AreLines m n [] h = tt
row_lines-AreLines m n (p ∷ []) h =
    let (c, (t, (e, k))) = trim-IsStarted (joined p m n) (joined-IsStarted p m n h.0.0) in
    (row-IsLine p m n h.0, (c, (t, e)))
row_lines-AreLines m n (p ∷ q ∷ rows) h =
    (row-IsLine p m n h.0, row_lines-AreLines m n (q ∷ rows) h.1)

parse_lines-content :
    (m n : ℕ) (rows : List DatabasePrivilegeRow)
    → All IsPlainRow rows
    → parse_lines 0 (
        lines (
          editor_comment ++ (10 ∷ (header_line m n ++ (10 ∷ join (10 ∷ []) (row_lines m n rows))))))
      ≡ (numbered 9 rows, [])
unfolding parse_lines add_result
parse_lines-content m n rows h =
    let body = join (10 ∷ []) (row_lines m n rows) in
    let line : IsLine (header_line m n) =
      rw (header_line-columns m n) (columns-IsLine (header_columns m n) (header-AreWords m n)) in
    parse_lines-comment (header_line m n ++ (10 ∷ body))
    ∙ ap (parse_lines 8) (
        lines-line (header_line m n) body line
        ∙ ap (λ ls. header_line m n ∷ ls)
            (lines-join (row_lines m n rows) (row_lines-AreLines m n rows h)))
    ∙ rw (parse_row-header m n) (parse_lines-rows 9 m n rows h)

-- The content that is generated for some rows of plain names, no two of them of one database and
-- one user, is read as these rows, without an error.
pub parse-generate :
    (p : DatabasePrivilegeRow) (rows : List DatabasePrivilegeRow) (unix_user : Text)
    (database_name : Option MySqlDatabase)
    → All IsPlainRow (p ∷ rows)
    → AreDistinct (p ∷ rows)
    → parse_privilege_data_from_editor_content
        (generate_editor_content_from_privilege_data (p ∷ rows) unix_user database_name)
      ≡ (p ∷ rows, [])
unfolding parse_privilege_data_from_editor_content generate_editor_content_from_privilege_data
    sort_by_line_number
parse-generate p rows unix_user database_name h distinct =
    let m = longest_database_name (p ∷ rows) (example_database unix_user database_name) in
    let n = longest_username (p ∷ rows) (unix_user ++ codes "_user") in
    rw
      (
        parse_lines-content m n (p ∷ rows) h,
        find_duplicates-AreDistinct 9 (p ∷ rows) distinct,
        kept_rows-numbered 9 (p ∷ rows),
      )
      refl
