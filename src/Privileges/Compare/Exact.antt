-- ===== src/Privileges/Compare/Exact.antt =====
-- Which diffs `diff_privileges` returns: for every key the one difference between its rows.
use muscl.Prelude.{
  ◌≡◌, ◌↔◌, refl, Option, none, some, List, [], ◌∷◌, Has, ◌⊎◌, inl, inr, Option-cases, arith,
  if◌then◌else◌,
}
use muscl.Prelude.HashMap.{lookup}
use muscl.Privileges.Row.{DatabasePrivilegeRow}
use muscl.Privileges.RowDiff
use muscl.Privileges.Diff.{DatabasePrivilegesDiff, new, modified, deleted}
use muscl.Privileges.Tables.{Key, key_Eq, Table, row_key, diff_key, lookup_table, view, IsKeyed}
use muscl.Privileges.Tables.Laws.{view_sound, view-IsKeyed}
use muscl.Privileges.Loop.{insert_all, Has-insert_all}
use muscl.Privileges.Compare.{diff_to_row, diff_to, diff_from_row, diff_from, diff_privileges}

-- The difference between what two states have under one key.
abbrev pub expected :
    Option DatabasePrivilegeRow → Option DatabasePrivilegeRow → Option DatabasePrivilegesDiff
expected none none = none
expected none (some b) = some (new b)
expected (some a) none = some (deleted a)
expected (some a) (some b) =
    if RowDiff.is_empty (RowDiff.from_rows a b)
    then none
    else some (modified (RowDiff.from_rows a b))

abbrev kept : Table → DatabasePrivilegeRow → Option DatabasePrivilegesDiff
kept t p = expected (lookup (row_key p) t) (some p)

abbrev removed_if :
    Option DatabasePrivilegeRow → DatabasePrivilegeRow → Option DatabasePrivilegesDiff
removed_if none p = some (deleted p)
removed_if (some q) p = none

abbrev removed : Table → DatabasePrivilegeRow → Option DatabasePrivilegesDiff
removed t p = removed_if (lookup (row_key p) t) p

module _ (t : Table) where
  diff_to-eq-insert_all :
      (ps : List DatabasePrivilegeRow) (result : List DatabasePrivilegesDiff)
      → diff_to t ps result ≡ insert_all (kept t) ps result
  unfolding diff_to diff_to_row
  diff_to-eq-insert_all [] result = refl
  diff_to-eq-insert_all (p ∷ ps) result =
      ground (arith, diff_to-eq-insert_all ps (diff_to_row t p result))

  diff_from-eq-insert_all :
      (ps : List DatabasePrivilegeRow) (result : List DatabasePrivilegesDiff)
      → diff_from t ps result ≡ insert_all (removed t) ps result
  unfolding diff_from diff_from_row
  diff_from-eq-insert_all [] result = refl
  diff_from-eq-insert_all (p ∷ ps) result =
      ground (arith, diff_from-eq-insert_all ps (diff_from_row t p result))

-- What an expected difference is filed under: the key of its rows.
diff_key-expected :
    (a : Option DatabasePrivilegeRow) (b : DatabasePrivilegeRow) (d : DatabasePrivilegesDiff)
    → ((r : DatabasePrivilegeRow) → a ≡ some r → row_key r ≡ row_key b)
    → expected a (some b) ≡ some d
    → diff_key d ≡ row_key b
unfolding RowDiff.from_rows
diff_key-expected none b d same h = let e : new b ≡ d = cc in rw (← e)
diff_key-expected (some a) b d same h =
    let e : modified (RowDiff.from_rows a b) ≡ d = ground arith in rw (← e) (same a refl)

module _ (from to : List DatabasePrivilegeRow) (d : DatabasePrivilegesDiff) where
  Has-diff_privileges : Has d (diff_privileges from to) ↔ (
      ((p : DatabasePrivilegeRow) × Has p to × (kept (lookup_table from) p ≡ some d))
      ⊎ ((p : DatabasePrivilegeRow) × Has p from × (removed (lookup_table to) p ≡ some d)))
  unfolding diff_privileges
  Has-diff_privileges = rw (diff_from-eq-insert_all (lookup_table to) from) (
      rw (diff_to-eq-insert_all (lookup_table from) to) (
        λ h.
            elim ((Has-insert_all (removed (lookup_table to)) d from
                (insert_all (kept (lookup_table from)) to [])).0
              h) [
                | inl m ↦ elim ((Has-insert_all (kept (lookup_table from)) d to []).0 m) [
                  | inl none_yet ↦ absurd none_yet
                  | inr x ↦ inl x
                ]
                | inr x ↦ inr x
              ],
        λ h.
            (Has-insert_all (removed (lookup_table to)) d from
                (insert_all (kept (lookup_table from)) to [])).1
              (elim h [
                | inl x ↦ inl ((Has-insert_all (kept (lookup_table from)) d to []).1 (inr x))
                | inr x ↦ inr x
              ]),
      ))

  expected_of_kept :
      IsKeyed to
      → (p : DatabasePrivilegeRow) → Has p to
      → kept (lookup_table from) p ≡ some d
      → expected (view from (diff_key d)) (view to (diff_key d)) ≡ some d
  expected_of_kept keyed p m e =
      let same : diff_key d ≡ row_key p =
        diff_key-expected (view from (row_key p)) p d
          (λ r found. (view_sound from (row_key p) r found).1) e in
      rw same (rw (view-IsKeyed to keyed p m) e)

  expected_of_removed :
      IsKeyed from
      → (p : DatabasePrivilegeRow) → Has p from
      → removed (lookup_table to) p ≡ some d
      → expected (view from (diff_key d)) (view to (diff_key d)) ≡ some d
  expected_of_removed keyed p m e = elim (Option-cases (view to (row_key p))) [
    | inl gone ↦
        let same : deleted p ≡ d = ground arith in
        rw (← same) (rw gone (rw (view-IsKeyed from keyed p m) refl))
    | inr (q, there) ↦ ground arith
  ]

  Has-of_expected :
      (k : Key) → expected (view from k) (view to k) ≡ some d → Has d (diff_privileges from to)
  Has-of_expected k e = Has-diff_privileges.1 (elim (Option-cases (view to k)) [
    | inl gone ↦ elim (Option-cases (view from k)) [
      | inl never ↦ absurd (ground arith)
      | inr (a, old) ↦
          let (m, key) = view_sound from k a old in
          inr (a, m, rw key (rw gone (rw (gone, old) at e)))
    ]
    | inr (b, there) ↦ let (m, key) = view_sound to k b there in inl (b, m, rw key (rw there at e))
  ])

  -- For two lists in which no two rows of one key differ, the result holds a diff exactly when the
  -- diff is the difference between what the lists have for its database and user: a creation, a
  -- deletion, or the changes of a row that is not the same in both.
  pub diff_privileges_exact :
      IsKeyed from
      → IsKeyed to
      → Has d (diff_privileges from to)
        ↔ (expected (view from (diff_key d)) (view to (diff_key d)) ≡ some d)
  diff_privileges_exact keyed_from keyed_to = (
    λ h. elim (Has-diff_privileges.0 h) [
      | inl (p, m, e) ↦ expected_of_kept keyed_to p m e
      | inr (p, m, e) ↦ expected_of_removed keyed_from p m e
    ],
    λ e. Has-of_expected (diff_key d) e,
  )
