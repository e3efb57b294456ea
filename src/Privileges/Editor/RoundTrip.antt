-- ===== src/Privileges/Editor/RoundTrip.antt =====
-- core/database_privileges/editor.rs: a row that is written for the editor is read as that row.
use muscl.Prelude.{
  ◌≡◌, refl, ap, sym, ◌∙◌, Bool-cases, true, false, [], ◌∷◌, ◌++◌, map, ℕ, suc, All, ◌==◌, zero,
  length, ◌-◌, is_empty_list, &&_both, arith, inl, inr,
}
use mathlib.Core.List.{append-nil}
use muscl.Prelude.Text.{Text, codes, starts_with, text_eq}
use muscl.Prelude.Words.{
  join, trim, words-trim, trim-All, is_space, trim-start, trim_end, trim_start, spaces, pad,
  is_whitespace, starts_with-trim_end,
}
use muscl.Prelude.Columns.{IsWord, words-columns, columns-IsBlankOnly}
use muscl.Privileges.Row.{DatabasePrivilegeRow, database_privilege_fields, privilege_fields}
use muscl.Privileges.Editor.Format.{cell, pad_cell, format_privileges_line_for_editor}
use muscl.Privileges.Editor.Parse.{privilege_row, parse_privilege_row_from_editor}
use muscl.Privileges.Editor.Cells.{cells-AreWords, words-cells, parse_row-cells}

-- A database and a user without white space, of which the database does not start a comment.
abbrev pub IsPlainRow : DatabasePrivilegeRow → Type 0
IsPlainRow row =
    IsWord row.db
    × IsWord row.user
    × (starts_with row.db (codes "#") ≡ false)
    × (starts_with row.db (codes "//") ≡ false)

-- What a text followed by a blank starts with, the text itself starts with.
starts_with-blank :
    (s t p : Text)
    → All (λ c. (c == 32) ≡ false) p
    → starts_with (s ++ (32 ∷ t)) p ≡ true
    → starts_with s p ≡ true
unfolding starts_with
starts_with-blank s t [] h e = refl
starts_with-blank [] t (d ∷ p) h e =
    absurd (let same : d ≡ 32 = ground arith in ground (arith, h.0))
starts_with-blank (c ∷ s) t (d ∷ p) h e =
    let both = &&_both (c == d) (starts_with (s ++ (32 ∷ t)) p) e in
    rw both.0 (starts_with-blank s t p h.1 both.1)

starts_with-spaces :
    (s p : Text) (n : ℕ)
    → All (λ c. (c == 32) ≡ false) p
    → starts_with (s ++ spaces n) p ≡ true
    → starts_with s p ≡ true
unfolding starts_with
starts_with-spaces s p zero h e = rw (append-nil s) at e
starts_with-spaces s p (suc n) h e = starts_with-blank s (spaces n) p h e

starts_with-trim :
    (c : ℕ) (t p : Text)
    → is_whitespace c ≡ false
    → starts_with (trim (c ∷ t)) p ≡ true
    → starts_with (c ∷ t) p ≡ true
unfolding trim trim_start
starts_with-trim c t p h e = starts_with-trim_end (c ∷ t) p (rw (h, trim_start) at e)

abbrev pub joined : DatabasePrivilegeRow → ℕ → ℕ → Text
joined p m n = join (codes " ") (map pad_cell (map (cell p m n) database_privilege_fields))

-- The line without the column of the database.
abbrev pub after_db : DatabasePrivilegeRow → ℕ → ℕ → Text
after_db p m n =
    join (codes " ") (map pad_cell (map (cell p m n) (codes "User" ∷ privilege_fields)))

-- A text that has a first character, which is not white space.
abbrev pub IsStarted : Text → Type 0
IsStarted s = (c : ℕ) × ((t : Text) × ((s ≡ c ∷ t) × (is_whitespace c ≡ false)))

word-IsStarted : (s : Text) → IsWord s → IsStarted s
word-IsStarted [] h = absurd h
word-IsStarted (c ∷ s) h = (c, (s, (refl, h.0)))

pub joined-IsStarted : (p : DatabasePrivilegeRow) (m n : ℕ) → IsWord p.db → IsStarted (joined p m n)
unfolding join cell text_eq
joined-IsStarted p m n h =
    let (c, (t, (e, k))) = word-IsStarted p.db h in
    let pads = spaces (m - length p.db) in
    (
      c,
      ((t ++ pads) ++ (32 ∷ after_db p m n), (ap (λ v. (v ++ pads) ++ (32 ∷ after_db p m n)) e, k)),
    )

pub is_empty_list-IsStarted : (s : Text) → IsStarted s → is_empty_list s ≡ false
is_empty_list-IsStarted s (c, (t, (e, k))) = ap is_empty_list e

pub trim-IsStarted : (s : Text) → IsStarted s → IsStarted (trim s)
trim-IsStarted s (c, (t, (e, k))) = (c, (trim_end t, (ap trim e ∙ trim-start c t k, k)))

pub starts_with-trimmed :
    (s p : Text) → IsStarted s → starts_with s p ≡ false → starts_with (trim s) p ≡ false
starts_with-trimmed s p (c, (t, (e, k))) h = elim (Bool-cases (starts_with (trim s) p)) [
  | inl same ↦
      let no = starts_with-trim c t p k (rw e at same) in
      absurd (let both : true ≡ false = sym no ∙ rw e at h in cc)
  | inr other ↦ other
]

joined-starts :
    (p : DatabasePrivilegeRow) (m n : ℕ) (q : Text)
    → All (λ c. (c == 32) ≡ false) q
    → starts_with p.db q ≡ false
    → starts_with (joined p m n) q ≡ false
unfolding join cell text_eq
joined-starts p m n q h k = elim (Bool-cases (starts_with (joined p m n) q)) [
  | inl same ↦
      let starts =
        starts_with-spaces p.db q (m - length p.db) h
          (starts_with-blank (pad p.db m) (after_db p m n) q h same) in
      absurd (let both : true ≡ false = sym starts ∙ k in cc)
  | inr other ↦ other
]

-- The row that the editor shows for a row of plain names, trimmed or not, is read as that row.
pub parse_row-format :
    (p : DatabasePrivilegeRow) (m n : ℕ)
    → IsPlainRow p
    → parse_privilege_row_from_editor (trim (format_privileges_line_for_editor p m n))
      ≡ privilege_row p
unfolding format_privileges_line_for_editor
parse_row-format p m n (db_word, user_word, no_hash, no_slashes) =
    let IsBlank = λ (c : ℕ). is_whitespace c ≡ is_space c in
    let s = joined p m n in
    let plain = cells-AreWords p m n db_word user_word in
    let blank = columns-IsBlankOnly (map (cell p m n) database_privilege_fields) plain in
    let once = joined-IsStarted p m n db_word in
    let twice = trim-IsStarted s once in
    let thrice = trim-IsStarted (trim (trim s)) (trim-IsStarted (trim s) twice) in
    let not_started =
      λ (q : Text) (h : All (λ c. (c == 32) ≡ false) q) (k : starts_with p.db q ≡ false).
        starts_with-trimmed (trim s) q twice
          (starts_with-trimmed s q once (joined-starts p m n q h k)) in
    parse_row-cells (trim (trim s)) p (not_started (codes "#") (refl, tt) no_hash)
      (not_started (codes "//") (refl, (refl, tt)) no_slashes)
      (is_empty_list-IsStarted (trim (trim (trim s))) thrice)
      (trim-All IsBlank (trim s) (trim-All IsBlank s blank))
      (words-trim (trim s) (trim-All IsBlank s blank)
        ∙ words-trim s blank
        ∙ words-columns (map (cell p m n) database_privilege_fields) plain
        ∙ words-cells p m n)
