-- ===== src/Server/Lists/Answers.antt =====
-- What the lists do with names that do not pass the validation: nothing is asked of the server about
-- them, and the error of the validation is the answer.
use muscl.Prelude.{◌≡◌, refl, Bool, inl, false, some, List, [], Has, keep, err, arith}
use muscl.Prelude.Ordered.{text_ord, get}
use muscl.Privileges.Row.{MySqlDatabase, MySqlUser}
use muscl.Validation.{database, user, ValidationError}
use muscl.Server.Connection.{Session, validate, is_valid}
use muscl.Server.Connection.Loops.{for_each-keep, get-for_each, Has-map}
use muscl.Server.Grants.{
  get_database_privilege_data, get_databases_privilege_data, ListPrivilegesError,
}
use muscl.Server.Lists.{
  list_database, list_databases, ListDatabasesError, list_database_user, list_database_users,
  ListUsersError,
}

module _ {S : Type 0} (session : Session S) where
  list_database_skips :
      (all : Bool) (n : MySqlDatabase) (s : S)
      → is_valid session (database n) ≡ false
      → (list_database session all n s).1 ≡ s
  unfolding list_database
  list_database_skips all n s h = ground arith

  list_database_user_skips :
      (all : Bool) (n : MySqlUser) (s : S)
      → is_valid session (user n) ≡ false
      → (list_database_user session all n s).1 ≡ s
  unfolding list_database_user
  list_database_user_skips all n s h = ground arith

  get_database_privilege_data_skips :
      (n : MySqlDatabase) (s : S)
      → is_valid session (database n) ≡ false
      → (get_database_privilege_data session n s).1 ≡ s
  unfolding get_database_privilege_data
  get_database_privilege_data_skips n s h = ground arith

  -- The lists ask the server only about those names that pass the validation.
  pub lists-keep :
      (all : Bool) (names : List MySqlDatabase) (s : S)
      → ((list_databases session all names s).1
          ≡ (list_databases session all (keep (λ n. is_valid session (database n)) names) s).1)
        × ((get_databases_privilege_data session names s).1
            ≡ (get_databases_privilege_data session
                (keep (λ n. is_valid session (database n)) names)
                s).1)
        × ((list_database_users session all names s).1
            ≡ (list_database_users session all (keep (λ n. is_valid session (user n)) names) s).1)
  unfolding list_databases get_databases_privilege_data list_database_users
  lists-keep all names s = (
    for_each-keep (λ n. n) (list_database session all) (λ n. is_valid session (database n))
        (list_database_skips all) names [] [] s,
    for_each-keep (λ n. n) (get_database_privilege_data session)
        (λ n. is_valid session (database n)) get_database_privilege_data_skips names [] [] s,
    for_each-keep (λ n. n) (list_database_user session all) (λ n. is_valid session (user n))
        (list_database_user_skips all) names [] [] s,
  )

  -- A name that does not pass the validation gets its error in each of the lists.
  pub lists_rejected :
      (all : Bool) (names : List MySqlDatabase) (n : MySqlDatabase) (e f : ValidationError) (s : S)
      → validate session (database n) ≡ err e
      → validate session (user n) ≡ err f
      → Has n names
      → (get n (list_databases session all names s).0
          ≡ some (err (ListDatabasesError.validation_error e)))
        × (get n (get_databases_privilege_data session names s).0
            ≡ some (err (ListPrivilegesError.validation_error e)))
        × (get n (list_database_users session all names s).0
            ≡ some (err (ListUsersError.validation_error f)))
  unfolding list_database list_databases get_database_privilege_data get_databases_privilege_data
      list_database_user list_database_users
  lists_rejected all names n e f s h k there = (
    get-for_each (λ n. n) (list_database session all) n
        (err (ListDatabasesError.validation_error e)) (λ b s' same. rw (← same) (rw h refl)) names
        [] s (inl (Has-map (λ n. n) n names there)),
    get-for_each (λ n. n) (get_database_privilege_data session) n
        (err (ListPrivilegesError.validation_error e)) (λ b s' same. rw (← same) (rw h refl)) names
        [] s (inl (Has-map (λ n. n) n names there)),
    get-for_each (λ n. n) (list_database_user session all) n
        (err (ListUsersError.validation_error f)) (λ b s' same. rw (← same) (rw k refl)) names [] s
        (inl (Has-map (λ n. n) n names there)),
  )
