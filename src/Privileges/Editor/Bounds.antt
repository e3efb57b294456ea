-- ===== src/Privileges/Editor/Bounds.antt =====
-- core/database_privileges/editor.rs: the numbers in the errors are numbers of lines of the
-- content, as the `debug_assert!` of `print_privilege_line_errors` expects.
use muscl.Prelude.{
  Bool-cases, List, [], ◌∷◌, ◌++◌, map, ℕ, suc, ◌+◌, ◌<◌, All, All-append, arith, inl, inr, length,
  leb, all,
}
use muscl.Prelude.Text.{Text}
use muscl.Prelude.Lines.{lines}
use muscl.Prelude.Words.{trim}
use muscl.Prelude.HashMap.{lookup, put}
use muscl.Privileges.Tables.{Key, key_Eq, key_eq, row_key}
use muscl.Privileges.Editor.Parse.{
  PrivilegeRowParseResult, Parsed, add_result, parse_lines, parse_privilege_row_from_editor,
  parse_privilege_data_from_editor_content,
}
use muscl.Privileges.Editor.Duplicates.{
  PrivilegeLineError, PrivilegeRowOccurrences, Groups, group, or_default, duplicates_of,
  duplicates_of_all, conflict, row_eq, find_duplicate_privilege_lines, insert_by_line_number,
  sort_by_line_number,
}

-- A predicate of line numbers, as of numbered rows and of errors.
module _ (P : ℕ → Type 0) where
  abbrev Rows : PrivilegeRowOccurrences → Type 0
  Rows = All (λ r. P r.0)

  abbrev Errors : List PrivilegeLineError → Type 0
  Errors = All (λ e. P (PrivilegeLineError.line_number e))

  abbrev AreGroups : Groups → Type 0
  AreGroups = All (λ g. Rows g.1)

  add_result-Errors :
      (n : ℕ) (r : PrivilegeRowParseResult) (rest : Parsed)
      → P n
      → Rows rest.0 × Errors rest.1
      → Rows (add_result n r rest).0 × Errors (add_result n r rest).1
  unfolding add_result
  add_result-Errors n (PrivilegeRowParseResult.privilege_row row) rest h (k, j) = ((h, k), j)
  add_result-Errors n (PrivilegeRowParseResult.parser_error e) rest h (k, j) = (k, (h, j))
  add_result-Errors n (PrivilegeRowParseResult.too_few_fields i) rest h (k, j) = (k, (h, j))
  add_result-Errors n (PrivilegeRowParseResult.too_many_fields i) rest h (k, j) = (k, (h, j))
  add_result-Errors n PrivilegeRowParseResult.header rest h k = k
  add_result-Errors n PrivilegeRowParseResult.comment rest h k = k
  add_result-Errors n PrivilegeRowParseResult.empty rest h k = k

  parse_lines-Errors :
      (n : ℕ) (ls : List Text)
      → ((k : ℕ) → k < n + length ls → P k)
      → Rows (parse_lines n ls).0 × Errors (parse_lines n ls).1
  unfolding parse_lines
  parse_lines-Errors n [] h = (tt, tt)
  parse_lines-Errors n (l ∷ ls) h =
      add_result-Errors n (parse_privilege_row_from_editor (trim l)) (parse_lines (suc n) ls)
        (h n (omega arith)) (parse_lines-Errors (suc n) ls (λ k j. h k (omega arith)))

  lookup-AreGroups :
      (key : Key) (groups : Groups) → AreGroups groups → Rows (or_default (lookup key groups))
  unfolding lookup
  lookup-AreGroups key [] h = tt
  lookup-AreGroups key ((j, rows) ∷ groups) h = elim (Bool-cases (key_eq j key)) [
    | inl same ↦ rw (same, lookup) h.0
    | inr other ↦ rw (other, lookup) (lookup-AreGroups key groups h.1)
  ]

  put-AreGroups :
      (key : Key) (rows : PrivilegeRowOccurrences) (groups : Groups)
      → Rows rows
      → AreGroups groups
      → AreGroups (put key rows groups)
  unfolding put
  put-AreGroups key rows [] k h = (k, tt)
  put-AreGroups key rows ((j, found) ∷ groups) k h = elim (Bool-cases (key_eq j key)) [
    | inl same ↦ rw (same, put) (k, h.1)
    | inr other ↦ rw (other, put) (h.0, put-AreGroups key rows groups k h.1)
  ]

  group-AreGroups :
      (rows : PrivilegeRowOccurrences) (groups : Groups)
      → Rows rows
      → AreGroups groups
      → AreGroups (group rows groups)
  unfolding group
  group-AreGroups [] groups h k = k
  group-AreGroups ((n, row) ∷ rows) groups h k =
      let key = row_key row in
      let found = or_default (lookup key groups) in
      group-AreGroups rows (put key (found ++ (n, row) ∷ []) groups) h.1 (
        put-AreGroups key (found ++ (n, row) ∷ []) groups
          (All-append (λ r. P r.0) found ((n, row) ∷ []) (lookup-AreGroups key groups k) (h.0, tt))
          k)

  conflicts-Errors :
      (rows : PrivilegeRowOccurrences) → Rows rows → Errors (map (λ r. conflict r.0) rows)
  conflicts-Errors [] h = tt
  conflicts-Errors (r ∷ rows) h = (h.0, conflicts-Errors rows h.1)

  duplicates_of-Errors :
      (rows : PrivilegeRowOccurrences) → Rows rows → Errors (duplicates_of rows).0
  unfolding duplicates_of
  duplicates_of-Errors [] h = tt
  duplicates_of-Errors ((n, row) ∷ []) h = tt
  duplicates_of-Errors ((n, row) ∷ r ∷ rest) h =
      elim (Bool-cases (all (λ q. row_eq q.1 row) (r ∷ rest))) [
        | inl same ↦ rw (same, duplicates_of) tt
        | inr other ↦ rw (other, duplicates_of) (conflicts-Errors (r ∷ rest) h.1)
      ]

  duplicates_of_all-Errors :
      (groups : Groups) → AreGroups groups → Errors (duplicates_of_all groups).0
  unfolding duplicates_of_all
  duplicates_of_all-Errors [] h = tt
  duplicates_of_all-Errors ((key, rows) ∷ groups) h =
      All-append (λ e. P (PrivilegeLineError.line_number e)) (duplicates_of rows).0
        (duplicates_of_all groups).0 (duplicates_of-Errors rows h.0)
        (duplicates_of_all-Errors groups h.1)

  insert-Errors :
      (e : PrivilegeLineError) (errors : List PrivilegeLineError)
      → P (PrivilegeLineError.line_number e)
      → Errors errors
      → Errors (insert_by_line_number e errors)
  unfolding insert_by_line_number
  insert-Errors e [] h k = (h, tt)
  insert-Errors e (f ∷ errors) h k =
      elim (Bool-cases
        (leb (PrivilegeLineError.line_number e) (PrivilegeLineError.line_number f))) [
          | inl before ↦ rw (before, insert_by_line_number) (h, k)
          | inr after ↦ rw (after, insert_by_line_number) (k.0, insert-Errors e errors h k.1)
        ]

  sort-Errors :
      (errors : List PrivilegeLineError) → Errors errors → Errors (sort_by_line_number errors)
  unfolding sort_by_line_number
  sort-Errors [] h = tt
  sort-Errors (e ∷ errors) h =
      insert-Errors e (sort_by_line_number errors) h.0 (sort-Errors errors h.1)

  content-Errors :
      (content : Text)
      → ((k : ℕ) → k < length (lines content) → P k)
      → Errors (parse_privilege_data_from_editor_content content).1
  unfolding parse_privilege_data_from_editor_content find_duplicate_privilege_lines
  content-Errors content h =
      let parsed = parse_lines 0 (lines content) in
      let (rows, errors) = parse_lines-Errors 0 (lines content) (λ k j. h k (omega arith)) in
      let groups = group parsed.0 [] in
      sort-Errors (parsed.1 ++ (duplicates_of_all groups).0) (
        All-append (λ e. P (PrivilegeLineError.line_number e)) parsed.1 (duplicates_of_all groups).0
          errors (duplicates_of_all-Errors groups (group-AreGroups parsed.0 [] rows tt)))

-- Every error stands at a line of the content.
pub parse_errors_bounds :
    (content : Text)
    → All
        (λ e. PrivilegeLineError.line_number e < length (lines content))
        (parse_privilege_data_from_editor_content content).1
parse_errors_bounds content = content-Errors (λ k. k < length (lines content)) content (λ k h. h)
