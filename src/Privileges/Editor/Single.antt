-- ===== src/Privileges/Editor/Single.antt =====
-- core/database_privileges/editor.rs: rows of which no two are of one database and one user have no
-- duplicates.
use muscl.Prelude.{
  ◌≡◌, refl, ap, ◌∙◌, Bool-cases, false, List, [], ◌∷◌, ℕ, suc, All, inl, inr, Option, none,
}
use muscl.Prelude.HashMap.{lookup, lookup-put, put}
use muscl.Privileges.Row.{DatabasePrivilegeRow}
use muscl.Privileges.Tables.{Key, key_Eq, key_eq, row_key}
use muscl.Privileges.Editor.Parse.{kept_rows}
use muscl.Privileges.Editor.Duplicates.{
  PrivilegeRowOccurrences, Groups, group, duplicates_of, duplicates_of_all,
  find_duplicate_privilege_lines,
}

-- The rows under the header, with the numbers of their lines.
abbrev pub numbered : ℕ → List DatabasePrivilegeRow → PrivilegeRowOccurrences
numbered k [] = []
numbered k (p ∷ rows) = (k, p) ∷ numbered (suc k) rows

-- No two rows are of one database and one user.
abbrev pub AreDistinct : List DatabasePrivilegeRow → Type 0
AreDistinct [] = Unit
AreDistinct (p ∷ rows) = All (λ q. key_eq (row_key p) (row_key q) ≡ false) rows × AreDistinct rows

-- Every group is of one row.
abbrev AreSingle : Groups → Type 0
AreSingle = All (λ (key, rows). (n : ℕ) × ((p : DatabasePrivilegeRow) × (rows ≡ (n, p) ∷ [])))

put-AreSingle :
    (key : Key) (n : ℕ) (p : DatabasePrivilegeRow) (groups : Groups)
    → AreSingle groups
    → AreSingle (put key ((n, p) ∷ []) groups)
unfolding put
put-AreSingle key n p [] h = ((n, (p, refl)), tt)
put-AreSingle key n p ((j, rows) ∷ groups) h = elim (Bool-cases (key_eq j key)) [
  | inl same ↦ rw (same, put) ((n, (p, refl)), h.1)
  | inr other ↦ rw (other, put) (h.0, put-AreSingle key n p groups h.1)
]

free-put :
    (p : DatabasePrivilegeRow) (found : PrivilegeRowOccurrences) (groups : Groups)
    (rows : List DatabasePrivilegeRow)
    → All (λ q. key_eq (row_key p) (row_key q) ≡ false) rows
    → All (λ q. lookup (row_key q) groups ≡ none) rows
    → All (λ q. lookup (row_key q) (put (row_key p) found groups) ≡ none) rows
free-put p found groups [] h free = tt
free-put p found groups (q ∷ rows) h free = (
  lookup-put (row_key p) (row_key q) found groups ∙ rw h.0 free.0,
  free-put p found groups rows h.1 free.1,
)

group-AreSingle :
    (k : ℕ) (rows : List DatabasePrivilegeRow) (groups : Groups)
    → AreDistinct rows
    → All (λ p. lookup (row_key p) groups ≡ none) rows
    → AreSingle groups
    → AreSingle (group (numbered k rows) groups)
unfolding group
group-AreSingle k [] groups h free single = single
group-AreSingle k (p ∷ rows) groups h free single =
    rw (free.0, group)
      (group-AreSingle (suc k) rows (put (row_key p) ((k, p) ∷ []) groups) h.1
        (free-put p ((k, p) ∷ []) groups rows h.0 free.1)
        (put-AreSingle (row_key p) k p groups single))

duplicates_of-AreSingle : (groups : Groups) → AreSingle groups → duplicates_of_all groups ≡ ([], [])
unfolding duplicates_of_all duplicates_of
duplicates_of-AreSingle [] h = refl
duplicates_of-AreSingle ((key, rows) ∷ groups) ((n, (p, e)), h) =
    rw (e, duplicates_of-AreSingle groups h) refl

pub find_duplicates-AreDistinct :
    (k : ℕ) (rows : List DatabasePrivilegeRow)
    → AreDistinct rows
    → find_duplicate_privilege_lines (numbered k rows) ≡ ([], [])
unfolding find_duplicate_privilege_lines lookup
find_duplicates-AreDistinct k rows h =
    duplicates_of-AreSingle (group (numbered k rows) [])
      (group-AreSingle k rows [] h (nothing rows) tt)
  where
    nothing :
        (ps : List DatabasePrivilegeRow)
        → All (λ p. ◌≡◌ {A = Option PrivilegeRowOccurrences} none none) ps
    nothing [] = tt
    nothing (p ∷ ps) = (refl, nothing ps)

pub kept_rows-numbered :
    (k : ℕ) (rows : List DatabasePrivilegeRow) → kept_rows [] (numbered k rows) ≡ rows
kept_rows-numbered k [] = refl
kept_rows-numbered k (p ∷ rows) = ap (λ ps. p ∷ ps) (kept_rows-numbered (suc k) rows)
