-- ===== src/Server/Users/Effects.antt =====
-- What the operations on users do: users whose names do not pass the validation change nothing, and
-- are answered by the error of the validation.
use muscl.Prelude.{◌≡◌, refl, false, some, List, [], Has, keep, inl, err, arith}
use muscl.Prelude.Text.{Text}
use muscl.Prelude.Ordered.{text_ord, get}
use muscl.Privileges.Row.{MySqlUser}
use muscl.Validation.{user, ValidationError}
use muscl.Server.Connection.{Session, validate, is_valid}
use muscl.Server.Connection.Loops.{for_each-keep, get-for_each, Has-map}
use muscl.Server.Users.{
  create_database_user, create_database_users, CreateUserError, drop_database_user,
  drop_database_users, DropUserError, lock_database_user, lock_database_users, LockUserError,
  unlock_database_user, unlock_database_users, UnlockUserError, PasswordSource, SetPasswordError,
  set_password_for_database_user,
}

module _ {S : Type 0} (session : Session S) where
  create_database_user_skips :
      (n : MySqlUser) (s : S)
      → is_valid session (user n) ≡ false
      → (create_database_user session n s).1 ≡ s
  unfolding create_database_user
  create_database_user_skips n s h = ground arith

  drop_database_user_skips :
      (n : MySqlUser) (s : S)
      → is_valid session (user n) ≡ false
      → (drop_database_user session n s).1 ≡ s
  unfolding drop_database_user
  drop_database_user_skips n s h = ground arith

  lock_database_user_skips :
      (n : MySqlUser) (s : S)
      → is_valid session (user n) ≡ false
      → (lock_database_user session n s).1 ≡ s
  unfolding lock_database_user
  lock_database_user_skips n s h = ground arith

  unlock_database_user_skips :
      (n : MySqlUser) (s : S)
      → is_valid session (user n) ≡ false
      → (unlock_database_user session n s).1 ≡ s
  unfolding unlock_database_user
  unlock_database_user_skips n s h = ground arith

  -- Creating, dropping, locking and unlocking users leaves the server in the state that the same for
  -- those users alone leaves whose names pass the validation.
  pub users-keep :
      (names : List MySqlUser) (s : S)
      → ((create_database_users session names s).1
          ≡ (create_database_users session (keep (λ n. is_valid session (user n)) names) s).1)
        × ((drop_database_users session names s).1
            ≡ (drop_database_users session (keep (λ n. is_valid session (user n)) names) s).1)
        × ((lock_database_users session names s).1
            ≡ (lock_database_users session (keep (λ n. is_valid session (user n)) names) s).1)
        × ((unlock_database_users session names s).1
            ≡ (unlock_database_users session (keep (λ n. is_valid session (user n)) names) s).1)
  unfolding create_database_users drop_database_users lock_database_users unlock_database_users
  users-keep names s = (
    for_each-keep (λ n. n) (create_database_user session) (λ n. is_valid session (user n))
        create_database_user_skips names [] [] s,
    for_each-keep (λ n. n) (drop_database_user session) (λ n. is_valid session (user n))
        drop_database_user_skips names [] [] s,
    for_each-keep (λ n. n) (lock_database_user session) (λ n. is_valid session (user n))
        lock_database_user_skips names [] [] s,
    for_each-keep (λ n. n) (unlock_database_user session) (λ n. is_valid session (user n))
        unlock_database_user_skips names [] [] s,
  )

  -- A user whose name does not pass the validation gets its error as the answer to a request that
  -- names the user, to create, drop, lock or unlock, and to a new password, which changes nothing.
  pub users_rejected :
      (names : List MySqlUser) (n : MySqlUser) (e : ValidationError) (s : S)
      → validate session (user n) ≡ err e
      → Has n names
      → (get n (create_database_users session names s).0
          ≡ some (err (CreateUserError.validation_error e)))
        × (get n (drop_database_users session names s).0
            ≡ some (err (DropUserError.validation_error e)))
        × (get n (lock_database_users session names s).0
            ≡ some (err (LockUserError.validation_error e)))
        × (get n (unlock_database_users session names s).0
            ≡ some (err (UnlockUserError.validation_error e)))
        × ((generated : Text) (password : PasswordSource)
            → set_password_for_database_user session generated n password s
              ≡ (err (SetPasswordError.validation_error e), s))
  unfolding create_database_user create_database_users drop_database_user drop_database_users
      lock_database_user lock_database_users unlock_database_user unlock_database_users
      set_password_for_database_user
  users_rejected names n e s h there = (
    get-for_each (λ n. n) (create_database_user session) n
        (err (CreateUserError.validation_error e)) (λ b s' same. rw (← same) (rw h refl)) names [] s
        (inl (Has-map (λ n. n) n names there)),
    get-for_each (λ n. n) (drop_database_user session) n (err (DropUserError.validation_error e))
        (λ b s' same. rw (← same) (rw h refl)) names [] s (inl (Has-map (λ n. n) n names there)),
    get-for_each (λ n. n) (lock_database_user session) n (err (LockUserError.validation_error e))
        (λ b s' same. rw (← same) (rw h refl)) names [] s (inl (Has-map (λ n. n) n names there)),
    get-for_each (λ n. n) (unlock_database_user session) n
        (err (UnlockUserError.validation_error e)) (λ b s' same. rw (← same) (rw h refl)) names [] s
        (inl (Has-map (λ n. n) n names there)),
    λ generated password. rw h refl,
  )
