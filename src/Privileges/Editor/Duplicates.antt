-- ===== src/Privileges/Editor/Duplicates.antt =====
-- The rows of the editor that name a database and a user twice: `find_duplicate_privilege_lines`
-- of core/database_privileges/editor.rs. The groups come in the order of a hash map there; the
-- errors are sorted by their lines after, and the dropped lines are a set.
use muscl.Prelude.{
  ◌==◌, leb, if◌then◌else◌, Bool, not, ◌&&◌, is_empty_list, List, [], ◌∷◌, ◌++◌, any, all, ℕ, map,
  Option, none, some,
}
use muscl.Prelude.Text.{Text, codes, text_eq}
use muscl.Prelude.HashMap.{lookup, put}
use muscl.Privileges.Row.{DatabasePrivilegeRow}
use muscl.Privileges.Tables.{Key, key_Eq, row_key}

pub record PrivilegeLineError : Type 0 where
  pub line_number : ℕ
  pub message : Text

abbrev pub PrivilegeRowOccurrences : Type 0
PrivilegeRowOccurrences = List (ℕ × DatabasePrivilegeRow)

-- `HashSet::contains`
abbrev pub has_number : ℕ → List ℕ → Bool
has_number n ns = any (λ k. k == n) ns

abbrev bool_eq : Bool → Bool → Bool
bool_eq a b = if a then b else not b

-- The derived `==` on rows.
unfoldable pub row_eq : DatabasePrivilegeRow → DatabasePrivilegeRow → Bool
unfolding text_eq
row_eq p q =
    text_eq p.db q.db
    && text_eq p.user q.user
    && bool_eq p.select_priv q.select_priv
    && bool_eq p.insert_priv q.insert_priv
    && bool_eq p.update_priv q.update_priv
    && bool_eq p.delete_priv q.delete_priv
    && bool_eq p.create_priv q.create_priv
    && bool_eq p.drop_priv q.drop_priv
    && bool_eq p.alter_priv q.alter_priv
    && bool_eq p.index_priv q.index_priv
    && bool_eq p.create_tmp_table_priv q.create_tmp_table_priv
    && bool_eq p.lock_tables_priv q.lock_tables_priv
    && bool_eq p.references_priv q.references_priv
    && bool_eq p.create_view_priv q.create_view_priv
    && bool_eq p.show_view_priv q.show_view_priv
    && bool_eq p.trigger_priv q.trigger_priv

abbrev pub Groups : Type 0
Groups = List (Key × PrivilegeRowOccurrences)

-- `Entry::or_default`
abbrev pub or_default : Option PrivilegeRowOccurrences → PrivilegeRowOccurrences
or_default none = []
or_default (some rows) = rows

-- `map.entry((&row.db, &row.user)).or_default().push((*line_number, row))` for every row
unfoldable pub group : PrivilegeRowOccurrences → Groups → Groups
unfolding lookup put
group [] groups = groups
group ((n, row) ∷ rows) groups =
    let key = row_key row in
    group rows (put key (or_default (lookup key groups) ++ (n, row) ∷ []) groups)

abbrev pub conflict : ℕ → PrivilegeLineError
conflict n = record {
  line_number = n;
  message = codes "Duplicate entry for this database/user pair conflicts with an earlier entry.";
}

-- The errors and the dropped lines of the whole editor or of a part of it.
abbrev pub Duplicates : Type 0
Duplicates = List PrivilegeLineError × List ℕ

abbrev pub numbers : PrivilegeRowOccurrences → List ℕ
numbers rows = map (λ r. r.0) rows

-- The rows of one database and one user: of equal rows the first stays, of rows that differ none
-- does, and every one but the first is reported.
unfoldable pub duplicates_of : PrivilegeRowOccurrences → Duplicates
unfolding row_eq
duplicates_of [] = ([], [])
duplicates_of ((n, first_row) ∷ rest) =
    let all_equal = all (λ r. row_eq r.1 first_row) rest in
    if is_empty_list rest
    then ([], [])
    else if all_equal
    then ([], numbers rest)
    else (map (λ r. conflict r.0) rest, n ∷ numbers rest)

unfoldable pub duplicates_of_all : Groups → Duplicates
unfolding duplicates_of
duplicates_of_all [] = ([], [])
duplicates_of_all ((key, rows) ∷ groups) =
    let here = duplicates_of rows in
    let later = duplicates_of_all groups in (here.0 ++ later.0, here.1 ++ later.1)

unfoldable pub find_duplicate_privilege_lines : PrivilegeRowOccurrences → Duplicates
unfolding group duplicates_of_all
find_duplicate_privilege_lines rows = duplicates_of_all (group rows [])

unfoldable pub insert_by_line_number :
    PrivilegeLineError → List PrivilegeLineError → List PrivilegeLineError
insert_by_line_number e [] = e ∷ []
insert_by_line_number e (f ∷ errors) =
    let rest = insert_by_line_number e errors in
    if leb (PrivilegeLineError.line_number e) (PrivilegeLineError.line_number f)
    then e ∷ f ∷ errors
    else f ∷ rest

-- `errors.sort_by_key(|error| error.line_number)`, which is stable
unfoldable pub sort_by_line_number : List PrivilegeLineError → List PrivilegeLineError
unfolding insert_by_line_number
sort_by_line_number [] = []
sort_by_line_number (e ∷ errors) = insert_by_line_number e (sort_by_line_number errors)
