-- ===== src/Privileges/Editor/Markers.antt =====
-- The errors shown between the lines of the editor: `inline_errors_into_editor_content` and
-- `strip_inlined_errors` of core/database_privileges/editor.rs, and the lines by their target.
use muscl.Prelude.{
  ◌==◌, if◌then◌else◌, Bool, false, List, [], ◌∷◌, ◌++◌, map, ℕ, suc, ◌&&◌, ◌||◌, Option, none,
  some,
}
use muscl.Prelude.Text.{Text, codes, len, starts_with}
use muscl.Prelude.Words.{words, join}
use muscl.Prelude.Lines.{lines}
use muscl.Prelude.HashMap.{lookup, put}
use muscl.Privileges.Row.{database_privilege_fields, db_priv_field_human_readable_name}
use muscl.Privileges.Tables.{Key, key_Eq}
use muscl.Privileges.Editor.Duplicates.{PrivilegeLineError}
use muscl.Privileges.Editor.Format.{pad_header}

abbrev pub error_marker_prefix : Text
error_marker_prefix = codes "# ^ ERROR: "

abbrev pub error_continuation_prefix : Text
error_continuation_prefix = codes "#          "

-- `errors.iter().filter(..).flat_map(|e| e.message.lines())`
unfoldable pub message_lines : ℕ → List PrivilegeLineError → List Text
message_lines n [] = []
message_lines n (e ∷ errors) =
    let rest = message_lines n errors in
    if PrivilegeLineError.line_number e == n
    then lines (PrivilegeLineError.message e) ++ rest
    else rest

-- The first line of a message after its marker, the others after the continuation.
abbrev pub mark : List Text → List Text
mark [] = []
mark (first ∷ rest) =
    (error_marker_prefix ++ first) ∷ map (λ l. error_continuation_prefix ++ l) rest

unfoldable pub inline_lines : ℕ → List Text → List PrivilegeLineError → List Text
unfolding message_lines
inline_lines n [] errors = []
inline_lines n (line ∷ rest) errors =
    line ∷ (mark (message_lines n errors) ++ inline_lines (suc n) rest errors)

unfoldable pub inline_errors_into_editor_content : Text → List PrivilegeLineError → Text
unfolding inline_lines join
inline_errors_into_editor_content content errors =
    join (codes "\n") (inline_lines 0 (lines content) errors)

-- `scan` with the state `in_error_block`, and `filter_map`
unfoldable pub strip_lines : Bool → List Text → List Text
unfolding starts_with
strip_lines in_error_block [] = []
strip_lines in_error_block (line ∷ rest) =
    let here =
      starts_with line error_marker_prefix
      || (in_error_block && starts_with line error_continuation_prefix) in
    let kept = strip_lines here rest in if here then kept else line ∷ kept

unfoldable pub strip_inlined_errors : Text → Text
unfolding strip_lines join
strip_inlined_errors content = join (codes "\n") (strip_lines false (lines content))

abbrev pub Targets : Type 0
Targets = List (Key × List ℕ)

abbrev or_default : Option (List ℕ) → List ℕ
or_default none = []
or_default (some ns) = ns

-- `map.entry(target).or_default().push(line_number)` for a line that has two words
abbrev pub add_target : ℕ → List Text → Targets → Targets
add_target n (db ∷ user ∷ more) targets =
    put (db, user) (or_default (lookup (db, user) targets) ++ n ∷ []) targets
add_target n parts targets = targets

unfoldable pub map_lines : ℕ → List Text → Targets → Targets
unfolding lookup put
map_lines n [] targets = targets
map_lines n (line ∷ rest) targets = map_lines (suc n) rest (add_target n (words line) targets)

pub map_privilege_lines_by_target : Text → Targets
unfolding map_lines
map_privilege_lines_by_target content = map_lines 0 (lines content) []

-- `unwrap_or(&"")` of the first two words
abbrev first_lengths : List Text → ℕ × ℕ
first_lengths [] = (0, 0)
first_lengths (db ∷ []) = (len db, 0)
first_lengths (db ∷ user ∷ rest) = (len db, len user)

pub format_privilege_row_header_for : Text → Text
unfolding db_priv_field_human_readable_name join
format_privilege_row_header_for line =
    let (m, n) = first_lengths (words line) in
    join (codes " ")
      (pad_header m n (map db_priv_field_human_readable_name database_privilege_fields))
