-- ===== src/Privileges/Editor/Edited.antt =====
-- client/commands/edit_privs.rs: what is read from the editor, as the rows that the user wants.
use muscl.Prelude.{
  ◌≡◌, sym, some, ap, ◌∙◌, false, true, List, [], ◌∷◌, Has, All, All-Has, inl, inr, Option-cases,
}
use muscl.Prelude.Text.{Text}
use muscl.Privileges.Row.{DatabasePrivilegeRow}
use muscl.Privileges.Tables.{Key, key_eq, key_eq_iff, row_key, view, IsKeyed}
use muscl.Privileges.Tables.Laws.{view_sound, view_complete}
use muscl.Privileges.State.{apply_all}
use muscl.Privileges.Compare.{diff_privileges}
use muscl.Privileges.Compare.Transform.{diff_privileges_transforms}
use muscl.Privileges.Editor.Parse.{parse_privilege_data_from_editor_content}
use muscl.Privileges.Editor.Single.{AreDistinct}
use muscl.Privileges.Editor.Distinct.{parse-AreDistinct}

-- A row of another key than the first is not the row of that key.
differ :
    (p q : DatabasePrivilegeRow)
    → key_eq (row_key p) (row_key q) ≡ false
    → row_key p ≡ row_key q
    → ⊥
differ p q h e =
    let same = (key_eq_iff (row_key p) (row_key q)).1 e in
    absurd (let both : true ≡ false = sym same ∙ h in cc)

AreDistinct-unique :
    (rows : List DatabasePrivilegeRow) (q r : DatabasePrivilegeRow)
    → AreDistinct rows
    → Has q rows
    → Has r rows
    → row_key q ≡ row_key r
    → q ≡ r
AreDistinct-unique [] q r h here there e = absurd here
AreDistinct-unique (p ∷ rows) q r h (inl a) (inl b) e = a ∙ sym b
AreDistinct-unique (p ∷ rows) q r h (inl a) (inr b) e = absurd (
    differ p r (All-Has (λ x. key_eq (row_key p) (row_key x) ≡ false) r rows h.0 b)
      (ap row_key (sym a) ∙ e))
AreDistinct-unique (p ∷ rows) q r h (inr a) (inl b) e = absurd (
    differ p q (All-Has (λ x. key_eq (row_key p) (row_key x) ≡ false) q rows h.0 a)
      (ap row_key (sym b) ∙ sym e))
AreDistinct-unique (p ∷ rows) q r h (inr a) (inr b) e = AreDistinct-unique rows q r h.1 a b e

All-of_Has {ℓ} : {A : Type 0} (P : A → Type ℓ) (xs : List A) → ((a : A) → Has a xs → P a) → All P xs
All-of_Has P [] h = tt
All-of_Has P (x ∷ xs) h = (h x (inl (λ _. x)), All-of_Has P xs (λ a there. h a (inr there)))

pub AreDistinct-IsKeyed : (rows : List DatabasePrivilegeRow) → AreDistinct rows → IsKeyed rows
AreDistinct-IsKeyed rows h =
    All-of_Has (λ p. view rows (row_key p) ≡ some p) rows
      (λ p there. elim (Option-cases (view rows (row_key p))) [
        | inl missing ↦ absurd (view_complete rows p there missing)
        | inr (q, found) ↦
            let (q_there, same) = view_sound rows (row_key p) q found in
            found ∙ ap some (AreDistinct-unique rows q p h q_there there same)
      ])

-- For rows of which no two of one database and user differ, the diffs between these rows and the
-- content that the user has written leave, applied to these rows, exactly the rows that are read from
-- the content.
pub edited_content_transforms :
    (from : List DatabasePrivilegeRow) (content : Text) (k : Key)
    → IsKeyed from
    → apply_all
        (diff_privileges from (parse_privilege_data_from_editor_content content).0)
        (view from)
        k
      ≡ view (parse_privilege_data_from_editor_content content).0 k
edited_content_transforms from content k keyed =
    let to = (parse_privilege_data_from_editor_content content).0 in
    diff_privileges_transforms from to k keyed (AreDistinct-IsKeyed to (parse-AreDistinct content))
