-- ===== src/Privileges/Editor/Cells.antt =====
-- core/database_privileges/editor.rs: the cells of a row of the editor, written and read back.
use muscl.Prelude.{
  ◌≡◌, refl, ap, ◌∙◌, ok, Bool, true, false, List, [], ◌∷◌, map, ℕ, ◌&&◌, is_empty_list, arith,
}
use muscl.Prelude.Text.{Text, codes, starts_with, text_eq}
use muscl.Prelude.Words.{trim, words, words-trim, IsBlankOnly}
use muscl.Prelude.Columns.{IsWord, AreWords}
use muscl.Privileges.Row.{
  DatabasePrivilegeRow, db_priv_field_human_readable_name, database_privilege_fields,
  get_privilege_by_name, yn,
}
use muscl.Privileges.Editor.Format.{cell}
use muscl.Privileges.Editor.Parse.{
  privilege_row, parse_privilege_row_from_editor, row_of_cells, parse_privilege_cell_from_editor,
  rev_yn, editor_row_is_header, all_equal,
}

abbrev pub cells : DatabasePrivilegeRow → List Text
cells p =
    p.db
    ∷ p.user
    ∷ yn p.select_priv
    ∷ yn p.insert_priv
    ∷ yn p.update_priv
    ∷ yn p.delete_priv
    ∷ yn p.create_priv
    ∷ yn p.drop_priv
    ∷ yn p.alter_priv
    ∷ yn p.index_priv
    ∷ yn p.create_tmp_table_priv
    ∷ yn p.lock_tables_priv
    ∷ yn p.references_priv
    ∷ yn p.create_view_priv
    ∷ yn p.show_view_priv
    ∷ yn p.trigger_priv
    ∷ []

parse_cell-yn : (b : Bool) (name : Text) → parse_privilege_cell_from_editor (yn b) name ≡ ok b
unfolding parse_privilege_cell_from_editor rev_yn text_eq
parse_cell-yn true name = refl
parse_cell-yn false name = refl

row_of_cells-cells : (p : DatabasePrivilegeRow) → row_of_cells (cells p) ≡ ok p
unfolding row_of_cells
row_of_cells-cells p =
    rw
      (
        parse_cell-yn p.select_priv (codes "select_priv"),
        parse_cell-yn p.insert_priv (codes "insert_priv"),
        parse_cell-yn p.update_priv (codes "update_priv"),
        parse_cell-yn p.delete_priv (codes "delete_priv"),
        parse_cell-yn p.create_priv (codes "create_priv"),
        parse_cell-yn p.drop_priv (codes "drop_priv"),
        parse_cell-yn p.alter_priv (codes "alter_priv"),
        parse_cell-yn p.index_priv (codes "index_priv"),
        parse_cell-yn p.create_tmp_table_priv (codes "create_tmp_table_priv"),
        parse_cell-yn p.lock_tables_priv (codes "lock_tables_priv"),
        parse_cell-yn p.references_priv (codes "references_priv"),
        parse_cell-yn p.create_view_priv (codes "create_view_priv"),
        parse_cell-yn p.show_view_priv (codes "show_view_priv"),
        parse_cell-yn p.trigger_priv (codes "trigger_priv"),
      )
      refl

yn-IsWord : (b : Bool) → IsWord (yn b)
yn-IsWord true = (refl, tt)
yn-IsWord false = (refl, tt)

pub cells-AreWords :
    (p : DatabasePrivilegeRow) (m n : ℕ)
    → IsWord p.db
    → IsWord p.user
    → AreWords (map (cell p m n) database_privilege_fields)
unfolding cell get_privilege_by_name text_eq
cells-AreWords p m n h k = (
  h,
  (
    k,
    (
      yn-IsWord p.select_priv,
      (
        yn-IsWord p.insert_priv,
        (
          yn-IsWord p.update_priv,
          (
            yn-IsWord p.delete_priv,
            (
              yn-IsWord p.create_priv,
              (
                yn-IsWord p.drop_priv,
                (
                  yn-IsWord p.alter_priv,
                  (
                    yn-IsWord p.index_priv,
                    (
                      yn-IsWord p.create_tmp_table_priv,
                      (
                        yn-IsWord p.lock_tables_priv,
                        (
                          yn-IsWord p.references_priv,
                          (
                            yn-IsWord p.create_view_priv,
                            (yn-IsWord p.show_view_priv, (yn-IsWord p.trigger_priv, tt)),
                          ),
                        ),
                      ),
                    ),
                  ),
                ),
              ),
            ),
          ),
        ),
      ),
    ),
  ),
)

pub words-cells :
    (p : DatabasePrivilegeRow) (m n : ℕ)
    → map (λ w. w.0) (map (cell p m n) database_privilege_fields) ≡ cells p
unfolding cell get_privilege_by_name text_eq
words-cells p m n = refl

all_equal-cells : (p : DatabasePrivilegeRow) → all_equal (cells p) database_privilege_fields ≡ false
unfolding db_priv_field_human_readable_name text_eq
all_equal-cells p =
    rw (yn-select p.select_priv)
      (off (text_eq p.db (codes "Database")) (text_eq p.user (codes "User")))
  where
    yn-select : (b : Bool) → text_eq (yn b) (codes "Select") ≡ false
    yn-select true = refl
    yn-select false = refl

    off : (a b : Bool) → (a && (b && false)) ≡ false
    off a b = ground arith

-- A row is read by its words.
pub parse_row-cells :
    (s : Text) (p : DatabasePrivilegeRow)
    → starts_with s (codes "#") ≡ false
    → starts_with s (codes "//") ≡ false
    → is_empty_list (trim s) ≡ false
    → IsBlankOnly s
    → words s ≡ cells p
    → parse_privilege_row_from_editor s ≡ privilege_row p
unfolding parse_privilege_row_from_editor editor_row_is_header
parse_row-cells s p h k e blank w =
    let parts = words-trim s blank ∙ w in
    rw
      (
        h,
        k,
        e,
        parts,
        ap (λ v. all_equal v database_privilege_fields) w ∙ all_equal-cells p,
        row_of_cells-cells p,
      )
      refl
