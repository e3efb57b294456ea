-- ===== src/Privileges/Editor/Distinct.antt =====
-- core/database_privileges/editor.rs: no two rows that are read from the editor are of one database
-- and one user.
use muscl.Prelude.{
  ◌≡◌, refl, sym, ap, ◌∙◌, Bool-cases, true, false, not, List, [], ◌∷◌, ◌++◌, map, keep, keep-true,
  keep-false, ℕ, All, Has, arith, inl, inr, all, ◌==◌, ==_iff,
}
use mathlib.Core.List.{append-nil, append_assoc}
use mathlib.Core.Path.{subst}
use muscl.Prelude.Text.{Text, text_eq}
use muscl.Prelude.Lines.{lines}
use muscl.Prelude.HashMap.{lookup, put, lookup-put}
use muscl.Privileges.Row.{DatabasePrivilegeRow}
use muscl.Privileges.Tables.{Key, key_Eq, key_eq, key_eq_iff, row_key}
use muscl.Privileges.Editor.Parse.{parse_lines, parse_privilege_data_from_editor_content, kept_rows}
use muscl.Privileges.Editor.Duplicates.{
  PrivilegeRowOccurrences, Groups, group, or_default, numbers, duplicates_of, duplicates_of_all,
  row_eq, find_duplicate_privilege_lines, has_number,
}
use muscl.Privileges.Editor.Single.{AreDistinct}

-- The rows of a key, in their order.
abbrev of_key : Key → PrivilegeRowOccurrences → PrivilegeRowOccurrences
of_key key rows = keep (λ r. key_eq (row_key r.1) key) rows

lookup-group :
    (key : Key) (rows : PrivilegeRowOccurrences) (groups : Groups)
    → or_default (lookup key (group rows groups))
      ≡ or_default (lookup key groups) ++ of_key key rows
unfolding group key_eq text_eq
lookup-group key [] groups = sym (append-nil (or_default (lookup key groups)))
lookup-group key ((n, row) ∷ rows) groups =
    let found = or_default (lookup (row_key row) groups) ++ (n, row) ∷ [] in
    let step = lookup-put (row_key row) key found groups in
    lookup-group key rows (put (row_key row) found groups)
    ∙ elim (Bool-cases (key_eq (row_key row) key)) [
      | inl same ↦
          let here = rw same at step in
          let later = of_key key rows in
          rw (here, same)
            (append_assoc (or_default (lookup (row_key row) groups)) ((n, row) ∷ []) later
              ∙ ap (λ k. or_default (lookup k groups) ++ ((n, row) ∷ later))
                  ((key_eq_iff (row_key row) key).0 same))
      | inr other ↦ let here = rw other at step in rw (here, other) refl
    ]

has_number-append_left :
    (m : ℕ) (xs ys : List ℕ) → has_number m xs ≡ true → has_number m (xs ++ ys) ≡ true
has_number-append_left m [] ys h = absurd (cc)
has_number-append_left m (x ∷ xs) ys h = elim (Bool-cases (x == m)) [
  | inl same ↦ rw same refl
  | inr other ↦ rw other (has_number-append_left m xs ys (rw other at h))
]

has_number-append_right :
    (m : ℕ) (xs ys : List ℕ) → has_number m ys ≡ true → has_number m (xs ++ ys) ≡ true
has_number-append_right m [] ys h = h
has_number-append_right m (x ∷ xs) ys h = ground (arith, has_number-append_right m xs ys h)

-- All rows of one group but the first are dropped.
tail_dropped :
    (m : ℕ) (r : ℕ × DatabasePrivilegeRow) (rows : PrivilegeRowOccurrences)
    → has_number m (numbers rows) ≡ true
    → has_number m (duplicates_of (r ∷ rows)).1 ≡ true
unfolding duplicates_of
tail_dropped m r [] h = absurd (cc)
tail_dropped m (n, first) (q ∷ rows) h =
    elim (Bool-cases (all (λ r. row_eq r.1 first) (q ∷ rows))) [
      | inl same ↦ rw (same, duplicates_of) h
      | inr other ↦
          rw (other, duplicates_of) (has_number-append_right m (n ∷ []) (numbers (q ∷ rows)) h)
    ]

-- What is dropped of the group of a key is dropped.
group_dropped :
    (m : ℕ) (key : Key) (groups : Groups)
    → has_number m (duplicates_of (or_default (lookup key groups))).1 ≡ true
    → has_number m (duplicates_of_all groups).1 ≡ true
unfolding duplicates_of_all lookup duplicates_of
group_dropped m key [] h = absurd (cc)
group_dropped m key ((j, rows) ∷ groups) h = elim (Bool-cases (key_eq j key)) [
  | inl same ↦
      has_number-append_left m (duplicates_of rows).1 (duplicates_of_all groups).1 (rw same at h)
  | inr other ↦
      has_number-append_right m (duplicates_of rows).1 (duplicates_of_all groups).1
        (group_dropped m key groups (rw other at h))
]

-- A row after another one of its key.
of_key-Has :
    (key : Key) (m : ℕ) (q : DatabasePrivilegeRow) (rows : PrivilegeRowOccurrences)
    → key_eq (row_key q) key ≡ true
    → Has (m, q) rows
    → has_number m (numbers (of_key key rows)) ≡ true
unfolding key_eq text_eq
of_key-Has key m q [] h there = absurd there
of_key-Has key m q ((n, p) ∷ rows) h (inl here) =
    let same = ap (λ (r : ℕ × DatabasePrivilegeRow). key_eq (row_key r.1) key) (sym here) ∙ h in
    let number = (==_iff n m).1 (sym (ap (λ (r : ℕ × DatabasePrivilegeRow). r.0) here)) in
    rw same (rw number refl)
of_key-Has key m q ((n, p) ∷ rows) h (inr there) =
    let later = of_key-Has key m q rows h there in
    elim (Bool-cases (key_eq (row_key p) key)) [
      | inl same ↦ rw same (has_number-append_right m (n ∷ []) (numbers (of_key key rows)) later)
      | inr other ↦ rw other later
    ]

has_number-later :
    (m : ℕ) (before : PrivilegeRowOccurrences) (r : ℕ × DatabasePrivilegeRow)
    (after : PrivilegeRowOccurrences)
    → has_number m (numbers after) ≡ true
    → has_number m (numbers (before ++ (r ∷ after))) ≡ true
has_number-later m [] r after h = has_number-append_right m (r.0 ∷ []) (numbers after) h
has_number-later m (b ∷ before) r after h =
    has_number-append_right m (b.0 ∷ []) (numbers (before ++ (r ∷ after)))
      (has_number-later m before r after h)

of_key-cons :
    (key : Key) (r : ℕ × DatabasePrivilegeRow) (rows : PrivilegeRowOccurrences)
    → of_key key (r ∷ rows) ≡ of_key key (r ∷ []) ++ of_key key rows
unfolding key_eq text_eq
of_key-cons key r rows = elim (Bool-cases (key_eq (row_key r.1) key)) [
  | inl same ↦ rw same refl
  | inr other ↦ rw other refl
]

-- What follows the first of a list.
tail_has_number :
    (m : ℕ) (before : PrivilegeRowOccurrences) (r : ℕ × DatabasePrivilegeRow)
    (after : PrivilegeRowOccurrences)
    → has_number m (numbers after) ≡ true
    → has_number m (duplicates_of (before ++ (r ∷ after))).1 ≡ true
tail_has_number m [] r after h = tail_dropped m r after h
tail_has_number m (b ∷ before) r after h =
    tail_dropped m b (before ++ (r ∷ after)) (has_number-later m before r after h)

kept_rows-gone :
    (ns : List ℕ) (r : ℕ × DatabasePrivilegeRow) (rows : PrivilegeRowOccurrences)
    → has_number r.0 ns ≡ true
    → kept_rows ns rows ≡ kept_rows ns (r ∷ rows)
kept_rows-gone ns r rows h =
    ap (map (λ q. q.1)) (sym (keep-false (λ q. not (has_number q.0 ns)) r rows (ap not h)))

kept_rows-kept :
    (ns : List ℕ) (r : ℕ × DatabasePrivilegeRow) (rows : PrivilegeRowOccurrences)
    → has_number r.0 ns ≡ false
    → r.1 ∷ kept_rows ns rows ≡ kept_rows ns (r ∷ rows)
kept_rows-kept ns r rows h =
    ap (map (λ q. q.1)) (sym (keep-true (λ q. not (has_number q.0 ns)) r rows (ap not h)))

-- The groups of the rows, with the rows before those that are left.
module _ (groups : Groups) where
  abbrev dropped : List ℕ
  dropped = (duplicates_of_all groups).1

  later_dropped :
      (n m : ℕ) (p q : DatabasePrivilegeRow) (before rows : PrivilegeRowOccurrences)
      → or_default (lookup (row_key p) groups) ≡ before ++ of_key (row_key p) ((n, p) ∷ rows)
      → key_eq (row_key q) (row_key p) ≡ true
      → Has (m, q) rows
      → has_number m dropped ≡ true
  unfolding duplicates_of key_eq
  later_dropped n m p q before rows h same there =
      let self = (key_eq_iff (row_key p) (row_key p)).1 refl in
      let after = of_key (row_key p) rows in
      group_dropped m (row_key p) groups (
        rw (h, self)
          (tail_has_number m before (n, p) after (of_key-Has (row_key p) m q rows same there)))

  -- No row that is kept later is of the key of a row.
  kept_later :
      (n : ℕ) (p : DatabasePrivilegeRow) (before rows later : PrivilegeRowOccurrences)
      → or_default (lookup (row_key p) groups) ≡ before ++ of_key (row_key p) ((n, p) ∷ rows)
      → ((r : ℕ × DatabasePrivilegeRow) → Has r later → Has r rows)
      → All (λ q. key_eq (row_key p) (row_key q) ≡ false) (kept_rows dropped later)
  kept_later n p before rows [] h there = tt
  kept_later n p before rows ((m, q) ∷ later) h there =
      let AreOther = λ (rows : List DatabasePrivilegeRow).
        All (λ q. key_eq (row_key p) (row_key q) ≡ false) rows in
      let rest = kept_later n p before rows later h (λ r k. there r (inr k)) in
      elim (Bool-cases (has_number m dropped)) [
        | inl gone ↦ subst AreOther (kept_rows-gone dropped (m, q) later gone) rest
        | inr kept ↦
            let other : key_eq (row_key p) (row_key q) ≡ false =
              elim (Bool-cases (key_eq (row_key p) (row_key q))) [
                | inl same ↦
                    let back =
                      (key_eq_iff (row_key q) (row_key p)).1
                        (sym ((key_eq_iff (row_key p) (row_key q)).0 same)) in
                    let gone = later_dropped n m p q before rows h back (there (m, q) (inl refl)) in
                    absurd (let no_way : true ≡ false = sym gone ∙ kept in cc)
                | inr differs ↦ differs
              ] in
            subst AreOther (kept_rows-kept dropped (m, q) later kept) (other, rest)
      ]

  kept-AreDistinct :
      (rows : PrivilegeRowOccurrences) (before : Key → PrivilegeRowOccurrences)
      → ((key : Key) → or_default (lookup key groups) ≡ before key ++ of_key key rows)
      → AreDistinct (kept_rows dropped rows)
  kept-AreDistinct [] before h = tt
  kept-AreDistinct ((n, p) ∷ rows) before h =
      let rest =
        kept-AreDistinct rows (λ key. before key ++ of_key key ((n, p) ∷ []))
          (λ key.
            h key
            ∙ ap (λ v. before key ++ v) (of_key-cons key (n, p) rows)
            ∙ sym (append_assoc (before key) (of_key key ((n, p) ∷ [])) (of_key key rows))) in
      elim (Bool-cases (has_number n dropped)) [
        | inl gone ↦ subst AreDistinct (kept_rows-gone dropped (n, p) rows gone) rest
        | inr kept ↦
            subst AreDistinct (kept_rows-kept dropped (n, p) rows kept)
              (kept_later n p (before (row_key p)) rows rows (h (row_key p)) (λ r k. k), rest)
      ]

-- Whatever the content, no two rows that are read are of one database and one user.
pub parse-AreDistinct :
    (content : Text) → AreDistinct (parse_privilege_data_from_editor_content content).0
unfolding parse_privilege_data_from_editor_content find_duplicate_privilege_lines lookup
parse-AreDistinct content =
    let rows = (parse_lines 0 (lines content)).0 in
    kept-AreDistinct (group rows []) rows (λ _. []) (λ key. lookup-group key rows [])
