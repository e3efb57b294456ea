-- ===== src/Privileges/Editor/Tests.antt =====
-- Examples of core/database_privileges/editor.rs.
use muscl.Prelude.{◌≡◌, refl, [], ◌∷◌, ◌<◌, All, length, none}
use muscl.Prelude.Text.{Text, codes, starts_with, text_eq}
use muscl.Prelude.Words.{trim, join, words_from, trim_start, trim_end}
use muscl.Prelude.Lines.{lines, lines_from, strip_return}
use muscl.Prelude.Decimal.{decimal}
use muscl.Privileges.Row.{DatabasePrivilegeRow, no_privileges}
use muscl.Privileges.Tables.{key_eq}
use muscl.Privileges.Editor.Format.{
  format_privileges_line_for_editor, generate_editor_content_from_privilege_data,
}
use muscl.Privileges.Editor.Parse.{
  parse_privilege_row_from_editor, parse_privilege_data_from_editor_content, privilege_row,
  too_few_fields,
}
use muscl.Privileges.Editor.Duplicates.{PrivilegeLineError}
use muscl.Privileges.Editor.Markers.{inline_errors_into_editor_content, strip_inlined_errors}
use muscl.Privileges.Editor.Stripped.{strip_inlined_errors-inline}
use muscl.Privileges.Editor.RoundTrip.{IsPlainRow, parse_row-format}
use muscl.Privileges.Editor.Content.{parse-generate}
use muscl.Privileges.Editor.Single.{AreDistinct}
use muscl.Privileges.Editor.Edited.{edited_content_transforms}
use muscl.Privileges.State.{apply_all}
use muscl.Privileges.Compare.{diff_privileges}
use muscl.Privileges.Tables.{view}
use muscl.Privileges.Editor.Bounds.{parse_errors_bounds}
use muscl.Privileges.Editor.Distinct.{parse-AreDistinct}

abbrev alice_row : DatabasePrivilegeRow
alice_row = no_privileges (codes "alice_db") (codes "alice")

abbrev bob_row : DatabasePrivilegeRow
bob_row = no_privileges (codes "alice_db") (codes "alice_b")

abbrev two_rows : Text
two_rows =
    codes "a_db a Y Y N N N N N N N N N N N N\n# note\r\na_db a Y Y N N N N N N N N N N N N\nq r\n"

few_fields : parse_privilege_row_from_editor (codes "a_db a Y") ≡ too_few_fields 3
unfolding parse_privilege_row_from_editor starts_with trim trim_start trim_end words_from
few_fields = refl

three_lines : lines (codes "a\r\nb\n\nc") ≡ codes "a" ∷ codes "b" ∷ [] ∷ codes "c" ∷ []
unfolding lines_from strip_return
three_lines = refl

two_digits : decimal 16 ≡ codes "16"
unfolding decimal
two_digits = refl

strip_inlined_errors-inline_example :
    strip_inlined_errors (
      inline_errors_into_editor_content
        (codes "a b\n\nc")
        (record { line_number = 0; message = codes "one\ntwo" } ∷ []))
    ≡ codes "a b\n\nc"
unfolding join lines_from strip_return starts_with
strip_inlined_errors-inline_example =
    strip_inlined_errors-inline (codes "a b" ∷ [] ∷ codes "c" ∷ [])
      (record { line_number = 0; message = codes "one\ntwo" } ∷ [])
      ((refl, (refl, (refl, tt))), (tt, ((refl, tt), (99, ([], refl)))))
      ((refl, refl), ((refl, refl), ((refl, refl), tt)))
      (((refl, (refl, (refl, tt))), ((refl, (refl, (refl, tt))), tt)), tt)

alice-IsPlainRow : IsPlainRow alice_row
unfolding starts_with
alice-IsPlainRow = (
  (refl, (refl, (refl, (refl, (refl, (refl, (refl, (refl, tt)))))))),
  (refl, (refl, (refl, (refl, (refl, tt))))),
  refl,
  refl,
)

bob-IsPlainRow : IsPlainRow bob_row
unfolding starts_with
bob-IsPlainRow = (
  (refl, (refl, (refl, (refl, (refl, (refl, (refl, (refl, tt)))))))),
  (refl, (refl, (refl, (refl, (refl, (refl, (refl, tt))))))),
  refl,
  refl,
)

parse_row-format_example :
    parse_privilege_row_from_editor (trim (format_privileges_line_for_editor alice_row 10 5))
    ≡ privilege_row alice_row
parse_row-format_example = parse_row-format alice_row 10 5 alice-IsPlainRow

parse-generate_example :
    parse_privilege_data_from_editor_content
      (generate_editor_content_from_privilege_data (alice_row ∷ bob_row ∷ []) (codes "alice") none)
    ≡ (alice_row ∷ bob_row ∷ [], [])
unfolding key_eq text_eq
parse-generate_example =
    parse-generate alice_row (bob_row ∷ []) (codes "alice") none
      (alice-IsPlainRow, (bob-IsPlainRow, tt)) ((refl, tt), (tt, tt))

parse_errors_bounds_example :
    All
      (λ e. PrivilegeLineError.line_number e < length (lines two_rows))
      (parse_privilege_data_from_editor_content two_rows).1
parse_errors_bounds_example = parse_errors_bounds two_rows

parse-AreDistinct_example : AreDistinct (parse_privilege_data_from_editor_content two_rows).0
parse-AreDistinct_example = parse-AreDistinct two_rows

edited_content_transforms_example :
    apply_all
      (diff_privileges [] (parse_privilege_data_from_editor_content two_rows).0)
      (view [])
      (codes "a_db", codes "a")
    ≡ view (parse_privilege_data_from_editor_content two_rows).0 (codes "a_db", codes "a")
edited_content_transforms_example =
    edited_content_transforms [] two_rows (codes "a_db", codes "a") tt
