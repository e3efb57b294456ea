-- ===== src/Privileges/Loop.antt =====
-- The loops of `diff_privileges` and `create_or_modify_privilege_rows` have one shape: each item
-- gives at most one diff, which goes into the set.
use muscl.Prelude.{◌≡◌, ◌↔◌, refl, sym, ap, Option, none, some, List, [], ◌∷◌, Has, ◌⊎◌, inl, inr}
use muscl.Prelude.Ordered.{insert, Has-insert_self, Has-insert_of, Has-insert_cases}
use muscl.Privileges.Diff.{DatabasePrivilegesDiff}
use muscl.Privileges.Diff.Order.{diff_ord}

abbrev pub insert_some :
    Option DatabasePrivilegesDiff → List DatabasePrivilegesDiff → List DatabasePrivilegesDiff
insert_some none result = result
insert_some (some d) result = insert d result

Has-insert_some :
    (d : DatabasePrivilegesDiff) (o : Option DatabasePrivilegesDiff)
    (result : List DatabasePrivilegesDiff)
    → Has d (insert_some o result) ↔ ((o ≡ some d) ⊎ Has d result)
Has-insert_some d none result = (λ h. inr h, λ h. elim h [ inl e ↦ cc | inr m ↦ m ])
Has-insert_some d (some x) result = (
  λ h. elim (Has-insert_cases d x result h) [ inl e ↦ inl (ap some (sym e)) | inr m ↦ inr m ],
  λ h. elim h [
    | inl e ↦ let same : x ≡ d = cc in rw same (Has-insert_self d result)
    | inr m ↦ Has-insert_of d x result m
  ],
)

module _ {A : Type 0} (f : A → Option DatabasePrivilegesDiff) where
  abbrev pub insert_all : List A → List DatabasePrivilegesDiff → List DatabasePrivilegesDiff
  insert_all [] result = result
  insert_all (p ∷ ps) result = insert_all ps (insert_some (f p) result)

  -- The loop's set holds what it held, and what its items give.
  pub Has-insert_all :
      (d : DatabasePrivilegesDiff) (ps : List A) (result : List DatabasePrivilegesDiff)
      → Has d (insert_all ps result) ↔ (Has d result ⊎ ((p : A) × Has p ps × (f p ≡ some d)))
  Has-insert_all d [] result = (λ h. inl h, λ h. elim h [ inl m ↦ m | inr (p, m, e) ↦ absurd m ])
  Has-insert_all d (q ∷ ps) result = (
    λ h. elim ((Has-insert_all d ps (insert_some (f q) result)).0 h) [
      | inl m ↦ elim ((Has-insert_some d (f q) result).0 m) [
        | inl e ↦ inr (q, inl refl, e)
        | inr k ↦ inl k
      ]
      | inr (p, m, e) ↦ inr (p, inr m, e)
    ],
    λ h. (Has-insert_all d ps (insert_some (f q) result)).1 (elim h [
      | inl m ↦ inl ((Has-insert_some d (f q) result).1 (inr m))
      | inr (p, inl same, e) ↦ inl ((Has-insert_some d (f q) result).1 (inl (rw same at e)))
      | inr (p, inr m, e) ↦ inr (p, m, e)
    ]),
  )
