-- ===== src/Server/Grants/Refines.antt =====
-- `apply_privilege_diffs` against the meaning of diffs on the rows for any host of the table `db`: a diff is applied as a whole
-- or not at all, and what is left is what the applied diffs do in turn.
use mathlib.Core.Path.{subst}
use muscl.Prelude.{
  some, true, ◌≡◌, refl, ap, ◌∙◌, List, [], ◌∷◌, ◌⊎◌, inl, inr, Result, ok, err, map_err, not,
  Result-cases,
}
use muscl.Privileges.Diff.{
  DatabasePrivilegesDiff, new, modified, deleted, noop, get_database_name, get_user_name,
}
use muscl.Privileges.Diff.Meaning.{Applies}
use muscl.Privileges.Tables.{Key, diff_key}
use muscl.Prelude.Ordered.{insert_at}
use muscl.Privileges.State.{State, apply_one, apply_all}
use muscl.Server.Connection.{
  Action, Session, validate, lift, guard, map_failure, ◌>>=◌, ◌>>◌, for_each,
}
use muscl.Validation.{DbOrUser, name, database, user}
use muscl.Validation.Exact.{map_err-ok}
use muscl.Server.Databases.{unsafe_database_exists, database_exists_query}
use muscl.Server.Users.{unsafe_user_exists, user_exists_query}
use muscl.Server.Grants.{
  insert_statement, insert_values, update_statement, update_values, delete_statement, results_of,
  privilege_query, ModifyDatabasePrivilegesError, my_sql_error, user_validation_error,
  database_does_not_exist, user_does_not_exist, unsafe_apply_privilege_diff, validate_diff,
  apply_diff, apply_privilege_diffs, validate_diff_against,
  unsafe_get_database_privileges_for_db_user_pair,
}
use muscl.Server.Grants.Values.{key_ord}
use muscl.Server.Grants.Checks.{ChangesAll, validate_diff_exact}
use muscl.Server.Grants.Table.{Table, Outcome, ServesGrants, is_unpadded, any_host, privileges}
use muscl.Server.Grants.Statements.{
  AreComparable, read_statement-insert_statement, read_statement-update_statement,
  read_statement-delete_statement, read_statement-privilege_query, meaning-insertion,
  meaning-change, meaning-removal, selected-selection, queries, inserting, changing, removing,
  validate-is_unpadded,
}
use muscl.Server.Grants.Rows.{
  insertion-eq-apply_one, change-eq-apply_one, removal-eq-apply_one, noop-eq-apply_one,
}

module _ {S : Type 0} (grants : S → State) where
  -- The action fails and leaves the table, or succeeds, where the condition holds, and does `f`.
  abbrev AllOrNothing : {E : Type 0} → Type 0 → State → State → Action S E (Unit {0}) → Type 0
  AllOrNothing {E = E} Condition before after m =
      (s : S)
      → grants s ≡ before
      → (((m s).0 ≡ ok tt) × Condition × (grants (m s).1 ≡ after))
        ⊎ ((e : E) × ((m s).0 ≡ err e) × (grants (m s).1 ≡ before))

  -- A read before an action does not matter.
  after_read :
      {E A Condition : Type 0} {before after : State} (m : Action S E A)
      (k : A → Action S E (Unit {0}))
      → ((s : S) → grants s ≡ before → grants (m s).1 ≡ before)
      → ((a : A) (s : S)
          → grants s ≡ before
          → (m s).0 ≡ ok a
          → AllOrNothing Condition before after (k a))
      → AllOrNothing Condition before after (m >>= k)
  after_read m k keeps then_k s h = elim (Result-cases (m s).0) [
    | inl (a, e) ↦ rw e (then_k a s h e (m s).1 (keeps s h))
    | inr (e, failed) ↦ inr (e, rw failed refl, rw failed (keeps s h))
  ]

-- The diff applies to the row that the table has, and changes it in every privilege it names.
abbrev pub Fits : DatabasePrivilegesDiff → State → Type 0
Fits d table = Applies d (table (diff_key d)) × ChangesAll d (table (diff_key d))

module _ {S : Type 0} (session : Session S) where
  -- The diffs that are answered by `Ok`, in turn.
  abbrev pub applied : List DatabasePrivilegesDiff → S → List DatabasePrivilegesDiff
  applied [] s = []
  applied (d ∷ ds) s =
      let rest = applied ds (apply_diff session d s).1 in
      elim (apply_diff session d s).0 [ ok _ ↦ d ∷ rest | err _ ↦ rest ]

module _ {S : Type 0} (session : Session S) (table : S → Table)
    (serves : ServesGrants session.connection table) where
  -- The privileges for any host.
  abbrev grants : S → State
  grants s = privileges (table s)

  -- What a statement does to the table, it does to the privileges.
  seen_outcome :
      {E : Type 0} (before : Table) (f : Table → Table) (g : State → State)
      (m : Result E (Unit {0}) × S)
      → Outcome table before f m
      → privileges (f before) ≡ g (privileges before)
      → Outcome grants (privileges before) g m
  seen_outcome before f g m h same = elim h [
    | inl (e, after) ↦ inl (e, ap privileges after ∙ same)
    | inr (x, e, kept) ↦ inr (x, e, ap privileges kept)
  ]

  -- The names of a diff compare as they are.
  abbrev NamesCompare : DatabasePrivilegesDiff → Type 0
  NamesCompare d = AreComparable (get_database_name d) (get_user_name d)

  executed :
      (d : DatabasePrivilegesDiff) (s : S)
      → NamesCompare d
      → Outcome grants (grants s) (apply_one d) (unsafe_apply_privilege_diff session.connection d s)
  unfolding unsafe_apply_privilege_diff
  executed (new p) s c =
      seen_outcome (table s) (inserting p) (apply_one (new p)) _
        (serves.executes insert_statement (insert_values p) s _ _ read_statement-insert_statement
          (meaning-insertion p c))
        (insertion-eq-apply_one p (table s))
  executed (modified d) s c =
      seen_outcome (table s) (changing d) (apply_one (modified d)) _
        (serves.executes update_statement (update_values d) s _ _ read_statement-update_statement
          (meaning-change d c))
        (change-eq-apply_one d (table s))
  executed (deleted p) s c =
      seen_outcome (table s) (removing p) (apply_one (deleted p)) _
        (serves.executes delete_statement (some p.db ∷ some p.user ∷ some any_host ∷ []) s _ _
          read_statement-delete_statement (meaning-removal p.db p.user c))
        (removal-eq-apply_one p (table s))
  executed (noop db' user') s c = inl (refl, noop-eq-apply_one db' user' (grants s))

  abbrev finish : DatabasePrivilegesDiff → Action S ModifyDatabasePrivilegesError (Unit {0})
  finish d = map_failure my_sql_error (unsafe_apply_privilege_diff session.connection d)

  finished :
      (Condition : Type 0) (before : State) (d : DatabasePrivilegesDiff)
      → NamesCompare d
      → Condition
      → AllOrNothing grants Condition before (apply_one d before) (finish d)
  finished Condition before d names c s h = elim (executed d s names) [
    | inl (e, after) ↦ inl (rw e refl, c, after ∙ ap (apply_one d) h)
    | inr (e, failed, kept) ↦ inr (my_sql_error e, rw failed refl, kept ∙ h)
  ]

  validate_diff_keeps :
      (d : DatabasePrivilegesDiff) (s : S)
      → grants (validate_diff session.connection d s).1 ≡ grants s
  unfolding validate_diff unsafe_get_database_privileges_for_db_user_pair
  validate_diff_keeps d s =
      let kept = ap privileges (
        serves.privilege_keeps privilege_query (get_database_name d ∷ get_user_name d ∷ []) s
          queries.2) in
      elim (Result-cases
        (session.connection.fetch_privilege privilege_query
          (get_database_name d ∷ get_user_name d ∷ []) s).0) [
            | inl (row, e) ↦ rw e kept
            | inr (error, e) ↦ rw e kept
          ]

  -- What `validate_diff` accepts applies to the table.
  validated :
      (d : DatabasePrivilegesDiff) (s : S)
      → NamesCompare d
      → (validate_diff session.connection d s).0 ≡ ok tt
      → Applies d (grants s (diff_key d)) × ChangesAll d (grants s (diff_key d))
  unfolding validate_diff unsafe_get_database_privileges_for_db_user_pair
  validated d s names h =
      elim (Result-cases
        (session.connection.fetch_privilege privilege_query
          (get_database_name d ∷ get_user_name d ∷ []) s).0) [
            | inl (row, e) ↦
                let accepted : validate_diff_against d row ≡ ok tt = rw e at h in
                let found =
                  serves.finds privilege_query (get_database_name d ∷ get_user_name d ∷ []) s _ _
                    row read_statement-privilege_query
                    (selected-selection (get_database_name d) (get_user_name d) names) e in
                rw (← found) ((validate_diff_exact d row).0 accepted)
            | inr (error, e) ↦ let no = rw e at h in absurd (cc)
          ]

  abbrev check_and_finish :
      DatabasePrivilegesDiff → Action S ModifyDatabasePrivilegesError (Unit {0})
  check_and_finish d = validate_diff session.connection d >> finish d

  checked :
      (before : State) (d : DatabasePrivilegesDiff)
      → NamesCompare d
      → AllOrNothing grants (Fits d before) before (apply_one d before) (check_and_finish d)
  checked before d names =
      after_read grants (validate_diff session.connection d) (λ _. finish d)
        (λ s h. validate_diff_keeps d s ∙ h)
        (λ _ s h e.
          finished (Fits d before) before d names (subst (λ t. Fits d t) h (validated d s names e)))

  -- Over a connection that executes statements on the table `db` by their documented meaning,
  -- `apply_privilege_diffs` handles each diff as a whole: it answers `Ok`, the diff fits the
  -- privileges for any host, and they become what the diff makes of them; or it answers an error and
  -- they stay.
  pub apply_diff-refines :
      (d : DatabasePrivilegesDiff) (s : S)
      → (((apply_diff session d s).0 ≡ ok tt)
          × Fits d (privileges (table s))
          × (privileges (table (apply_diff session d s).1) ≡ apply_one d (privileges (table s))))
        ⊎ ((e : ModifyDatabasePrivilegesError) × ((apply_diff session d s).0 ≡ err e)
            × (privileges (table (apply_diff session d s).1) ≡ privileges (table s)))
  unfolding apply_diff unsafe_database_exists unsafe_user_exists
  apply_diff-refines d s = named s refl
    where
      Whole : Action S ModifyDatabasePrivilegesError (Unit {0}) → Type 0
      Whole = AllOrNothing grants (Fits d (grants s)) (grants s) (apply_one d (grants s))

      with_user : Action S ModifyDatabasePrivilegesError (Unit {0})
      with_user =
          map_failure my_sql_error (unsafe_user_exists session.connection (get_user_name d))
          >>= λ user_exists. guard (not user_exists) user_does_not_exist >> check_and_finish d

      with_user-Whole : NamesCompare d → Whole with_user
      with_user-Whole names =
          after_read grants
            (map_failure my_sql_error (unsafe_user_exists session.connection (get_user_name d)))
            (λ user_exists. guard (not user_exists) user_does_not_exist >> check_and_finish d)
            (λ s' h.
              ap privileges
                (serves.bool_keeps user_exists_query (get_user_name d ∷ []) s' queries.1)
              ∙ h)
            (λ user_exists _ _ _.
              after_read grants (guard (not user_exists) user_does_not_exist)
                (λ _. check_and_finish d) (λ s' h. h) (λ _ _ _ _. checked (grants s) d names))

      with_database : Action S ModifyDatabasePrivilegesError (Unit {0})
      with_database =
          map_failure my_sql_error (unsafe_database_exists session.connection (get_database_name d))
          >>= λ exists. guard (not exists) database_does_not_exist >> with_user

      with_database-Whole : NamesCompare d → Whole with_database
      with_database-Whole names =
          after_read grants
            (map_failure my_sql_error
              (unsafe_database_exists session.connection (get_database_name d)))
            (λ exists. guard (not exists) database_does_not_exist >> with_user)
            (λ s' h.
              ap privileges
                (serves.any_keeps database_exists_query (get_database_name d ∷ []) s' queries.0)
              ∙ h)
            (λ exists _ _ _.
              after_read grants (guard (not exists) database_does_not_exist) (λ _. with_user)
                (λ s' h. h) (λ _ _ _ _. with_user-Whole names))

      checks : DbOrUser → Action S ModifyDatabasePrivilegesError (Unit {0})
      checks x = lift (map_err user_validation_error (validate session x))

      compares :
          (x : DbOrUser) (u : Unit {0}) (s' : S)
          → (checks x s').0 ≡ ok u
          → is_unpadded (name x) ≡ true
      compares x u s' e =
          validate-is_unpadded session x
            ((map_err-ok user_validation_error (validate session x)).0 e)

      named : Whole (apply_diff session d)
      named =
          after_read grants (checks (database (get_database_name d)))
            (λ _. checks (user (get_user_name d)) >> with_database) (λ s' h. h)
            (λ u s1 _ e.
              after_read grants (checks (user (get_user_name d))) (λ _. with_database) (λ s' h. h)
                (λ v s2 _ e'. with_database-Whole (
                  compares (database (get_database_name d)) u s1 e,
                  compares (user (get_user_name d)) v s2 e',
                )))

  loop-refines :
      (diffs : List DatabasePrivilegesDiff)
      (results : List (Key × Result ModifyDatabasePrivilegesError (Unit {0}))) (s : S)
      → grants (for_each diff_key (apply_diff session) diffs results s).1
        ≡ apply_all (applied session diffs s) (grants s)
  unfolding for_each
  loop-refines [] results s = refl
  loop-refines (d ∷ ds) results s =
      let later =
        loop-refines ds (insert_at (diff_key d) (apply_diff session d s).0 results)
          (apply_diff session d s).1 in
      elim (apply_diff-refines d s) [
        | inl (e, fits, after) ↦
            rw (e, applied)
              (later ∙ ap (apply_all (applied session ds (apply_diff session d s).1)) after)
        | inr (error, e, after) ↦
            rw (e, applied)
              (later ∙ ap (apply_all (applied session ds (apply_diff session d s).1)) after)
      ]

  -- Over a connection that executes statements on the table `db` by their documented meaning, the
  -- privileges for any host after `apply_privilege_diffs` are what the diffs answered by `Ok` make of
  -- them in turn: no failure leaves a trace, and no diff is applied in part.
  pub apply_privilege_diffs-refines :
      (diffs : List DatabasePrivilegesDiff) (s : S)
      → privileges (table (apply_privilege_diffs session diffs s).1)
        ≡ apply_all (applied session diffs s) (privileges (table s))
  unfolding apply_privilege_diffs
  apply_privilege_diffs-refines diffs s =
      ap privileges (serves.flush_keeps (results_of session diffs s).1) ∙ loop-refines diffs [] s
