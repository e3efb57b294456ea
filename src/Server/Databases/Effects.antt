-- ===== src/Server/Databases/Effects.antt =====
-- What creating and dropping databases does: names that do not pass the validation change nothing,
-- and are answered by the error of the validation.
use muscl.Prelude.{◌≡◌, refl, inl, false, some, List, [], Has, keep, err, arith}
use muscl.Prelude.Ordered.{text_ord, get}
use muscl.Privileges.Row.{MySqlDatabase}
use muscl.Validation.{database, ValidationError}
use muscl.Server.Connection.{Session, validate, is_valid}
use muscl.Server.Connection.Loops.{for_each-keep, get-for_each, Has-map}
use muscl.Server.Databases.{
  CreateDatabaseError, create_databases, create_database, DropDatabaseError, drop_databases,
  drop_database,
}

module _ {S : Type 0} (session : Session S) where
  create_database_skips :
      (n : MySqlDatabase) (s : S)
      → is_valid session (database n) ≡ false
      → (create_database session n s).1 ≡ s
  unfolding create_database
  create_database_skips n s h = ground arith

  drop_database_skips :
      (n : MySqlDatabase) (s : S)
      → is_valid session (database n) ≡ false
      → (drop_database session n s).1 ≡ s
  unfolding drop_database
  drop_database_skips n s h = ground arith

  -- Creating and dropping databases leaves the server in the state that the same for those names
  -- alone leaves that pass the validation.
  pub databases-keep :
      (names : List MySqlDatabase) (s : S)
      → ((create_databases session names s).1
          ≡ (create_databases session (keep (λ n. is_valid session (database n)) names) s).1)
        × ((drop_databases session names s).1
            ≡ (drop_databases session (keep (λ n. is_valid session (database n)) names) s).1)
  unfolding create_databases drop_databases
  databases-keep names s = (
    for_each-keep (λ n. n) (create_database session) (λ n. is_valid session (database n))
        create_database_skips names [] [] s,
    for_each-keep (λ n. n) (drop_database session) (λ n. is_valid session (database n))
        drop_database_skips names [] [] s,
  )

  -- A database whose name does not pass the validation gets its error as the answer to a request
  -- that names the database, to create and to drop.
  pub databases_rejected :
      (names : List MySqlDatabase) (n : MySqlDatabase) (e : ValidationError) (s : S)
      → validate session (database n) ≡ err e
      → Has n names
      → (get n (create_databases session names s).0
          ≡ some (err (CreateDatabaseError.validation_error e)))
        × (get n (drop_databases session names s).0
            ≡ some (err (DropDatabaseError.validation_error e)))
  unfolding create_database create_databases drop_database drop_databases
  databases_rejected names n e s h there = (
    get-for_each (λ n. n) (create_database session) n (err (CreateDatabaseError.validation_error e))
        (λ b s' same. rw (← same) (rw h refl)) names [] s (inl (Has-map (λ n. n) n names there)),
    get-for_each (λ n. n) (drop_database session) n (err (DropDatabaseError.validation_error e))
        (λ b s' same. rw (← same) (rw h refl)) names [] s (inl (Has-map (λ n. n) n names there)),
  )
