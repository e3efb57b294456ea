-- ===== src/Server/Authorization/Answers.antt =====
-- The answers of `check_authorization` are those of the validation.
use muscl.Prelude.{
  ◌≡◌, ◌≢◌, ◌∙◌, refl, ap, none, some, List, [], ◌∷◌, Has, ◌⊎◌, inl, inr, Result, arith,
}
use muscl.Prelude.Ordered.{get, insert_at, get-insert_at_self, get-insert_at_ne, Ordering-cases}
use muscl.Validation.{DbOrUser, ValidationError}
use muscl.Server.Connection.{Session, validate}
use muscl.Server.Authorization.{
  db_or_user_ord, cmp_db_or_user, cmp_db_or_user-eq, cmp_db_or_user_refl, check_all,
  check_authorization,
}

same_name : (x y : DbOrUser) → (x ≡ y) ⊎ (x ≢ y)
same_name x y = elim (Ordering-cases (cmp_db_or_user x y)) [
  | inl e ↦
      inr (λ p. absurd (ground (arith, cmp_db_or_user_refl y, ap (λ z. cmp_db_or_user z y) p)))
  | inr (inl e) ↦ inl (cmp_db_or_user-eq x y e)
  | inr (inr e) ↦
      inr (λ p. absurd (ground (arith, cmp_db_or_user_refl y, ap (λ z. cmp_db_or_user z y) p)))
]

module _ {S : Type 0} (session : Session S) where
  get-check_all :
      (x : DbOrUser) (xs : List DbOrUser)
      (results : List (DbOrUser × Result ValidationError (Unit {0})))
      → Has x xs ⊎ (get x results ≡ some (validate session x))
      → get x (check_all session xs results) ≡ some (validate session x)
  unfolding check_all
  get-check_all x [] results (inl there) = absurd there
  get-check_all x [] results (inr found) = found
  get-check_all x (y ∷ ys) results start =
      get-check_all x ys (insert_at y (validate session y) results) (elim (same_name x y) [
        | inl same ↦ inr (rw same (get-insert_at_self y (validate session y) results))
        | inr other ↦ elim start [
          | inl (inl same) ↦ absurd (other same)
          | inl (inr there) ↦ inl there
          | inr found ↦ inr (get-insert_at_ne y x (validate session y) results other ∙ found)
        ]
      ])

  get-check_all_none :
      (x : DbOrUser) (xs : List DbOrUser)
      (results : List (DbOrUser × Result ValidationError (Unit {0})))
      → (Has x xs → ⊥)
      → get x (check_all session xs results) ≡ get x results
  unfolding check_all
  get-check_all_none x [] results h = refl
  get-check_all_none x (y ∷ ys) results h =
      get-check_all_none x ys (insert_at y (validate session y) results) (λ there. h (inr there))
      ∙ get-insert_at_ne y x (validate session y) results (λ e. h (inl e))

  -- `check_authorization` answers every name of the request by the result of its validation, and no
  -- other name.
  pub check_authorization_exact :
      (xs : List DbOrUser) (x : DbOrUser)
      → (Has x xs → get x (check_authorization session xs) ≡ some (validate session x))
        × ((Has x xs → ⊥) → get x (check_authorization session xs) ≡ none)
  unfolding check_authorization get
  check_authorization_exact xs x =
      (λ there. get-check_all x xs [] (inl there), λ absent. get-check_all_none x xs [] absent)
