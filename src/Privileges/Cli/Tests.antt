-- ===== src/Privileges/Cli/Tests.antt =====
-- Runs of the parser of edits, and its theorems at sample edits.
use muscl.Prelude.{any, ◌↔◌, ◌≡◌, refl, false, some, ◌∷◌, ◌++◌, keep, ok, err}
use muscl.Prelude.Text.{codes}
use muscl.Prelude.Words.{split}
use muscl.Privileges.Row.{no_privileges}
use muscl.Privileges.RowDiff.{DatabasePrivilegeRowDiff, apply}
use muscl.Privileges.Cli.{
  add, DatabasePrivilegeEdit, DatabasePrivilegeEditEntry, invalid_characters, invalid_format,
  empty_username, is_invalid, parse_edit, display_edit, parse_entry, entry_of_parts, display_entry,
  as_database_privileges_diff,
}
use muscl.Privileges.Cli.Parse.{
  IsEntry, parse_edit_exact, parse_entry_lem, parse_entry-display_entry,
}
use muscl.Privileges.Cli.Changes.{edited_row, apply-as_database_privileges_diff}

abbrev add_two : DatabasePrivilegeEdit
add_two = record { edit_type = add; privileges = codes "sD" }

abbrev entry : DatabasePrivilegeEditEntry
entry = record { database = codes "db"; user = codes "alice"; privilege_edit = add_two }

parse_runs :
    (parse_entry (codes "db:alice:+sD") ≡ ok entry)
    × (parse_entry (codes "db:alice:+sX") ≡ err (invalid_characters (codes "X")))
    × (parse_entry (codes "db:alice") ≡ err (invalid_format (codes "db:alice")))
    × (parse_entry (codes "db::s") ≡ err (empty_username (codes "db::s")))
unfolding parse_entry entry_of_parts split parse_edit
parse_runs = (refl, refl, refl, refl)

entry-IsEntry : IsEntry entry
entry-IsEntry = record {
  database_plain = (refl, (refl, tt));
  user_plain = (refl, (refl, (refl, (refl, (refl, tt)))));
  user_given = refl;
  edit_valid = refl;
}

parse_entry_lem_example :
    parse_entry (codes "db" ++ b':' ∷ (codes "alice" ++ b':' ∷ display_edit add_two)) ≡ ok entry
parse_entry_lem_example = parse_entry_lem entry entry-IsEntry

parse_entry-display_entry_example :
    parse_entry (display_entry entry)
    ≡ err (invalid_characters (keep is_invalid (b' ' ∷ display_edit add_two)))
parse_entry-display_entry_example = parse_entry-display_entry entry entry-IsEntry

apply-as_database_privileges_diff_example :
    (d : DatabasePrivilegeRowDiff) × (as_database_privileges_diff entry ≡ some d)
    × (apply d (no_privileges (codes "db") (codes "alice"))
        ≡ edited_row add (codes "sD") (no_privileges (codes "db") (codes "alice")))
apply-as_database_privileges_diff_example =
    apply-as_database_privileges_diff entry (no_privileges (codes "db") (codes "alice")) refl

parse_edit_exact_example :
    (parse_edit (codes "+sD") ≡ ok add_two)
    ↔ ((display_edit add_two ≡ codes "+sD") × (any is_invalid (codes "sD") ≡ false))
parse_edit_exact_example = parse_edit_exact (codes "+sD") add_two
