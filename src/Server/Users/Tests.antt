-- ===== src/Server/Users/Tests.antt =====
-- Runs of the operations on users, and their theorems at sample requests.
use muscl.Prelude.{◌≡◌, refl, some, List, [], ◌∷◌, keep, inl, ok, err}
use muscl.Prelude.Text.{Text, codes, text_eq, starts_with}
use muscl.Prelude.Ordered.{text_ord, get}
use muscl.Denylist.{matches}
use muscl.Validation.{
  user, authorization_error, illegal_prefix, validate_name, validate_authorization_by_unix_user,
  validate_authorization_by_group_denylist, validate_db_or_user_request,
}
use muscl.Server.Sql.{quote_literal, replace}
use muscl.Server.Connection.{validate, is_valid}
use muscl.Server.Recorder.{alice_session}
use muscl.Server.Users.{
  create_database_users, drop_database_users, lock_database_users, unlock_database_users,
  CreateUserError, DropUserError, LockUserError, UnlockUserError, PasswordSource, generate,
  SetPasswordError, set_password_for_database_user, unsafe_user_exists,
}
use muscl.Server.Users.Effects.{users-keep, users_rejected}

abbrev requested : List Text
requested = codes "bob" ∷ codes "alice_old" ∷ []

password :
    set_password_for_database_user alice_session (codes "s3'cret") (codes "alice_old") generate []
    ≡ (
      ok (some (codes "s3'cret")),
      codes "ALTER USER 'alice_old'@'%' IDENTIFIED BY 's3\\'cret'" ∷ [],
    )
unfolding set_password_for_database_user validate validate_db_or_user_request validate_name
    validate_authorization_by_unix_user validate_authorization_by_group_denylist starts_with text_eq
    matches unsafe_user_exists quote_literal replace
password = refl

bob_rejected :
    validate alice_session (user (codes "bob")) ≡ err (authorization_error illegal_prefix)
unfolding validate validate_db_or_user_request validate_name validate_authorization_by_unix_user
    validate_authorization_by_group_denylist starts_with text_eq matches
bob_rejected = refl

users-keep_example :
    ((create_database_users alice_session requested []).1
      ≡ (create_database_users alice_session
          (keep (λ n. is_valid alice_session (user n)) requested)
          []).1)
    × ((drop_database_users alice_session requested []).1
        ≡ (drop_database_users alice_session
            (keep (λ n. is_valid alice_session (user n)) requested)
            []).1)
    × ((lock_database_users alice_session requested []).1
        ≡ (lock_database_users alice_session
            (keep (λ n. is_valid alice_session (user n)) requested)
            []).1)
    × ((unlock_database_users alice_session requested []).1
        ≡ (unlock_database_users alice_session
            (keep (λ n. is_valid alice_session (user n)) requested)
            []).1)
users-keep_example = users-keep alice_session requested []

users_rejected_example :
    (get (codes "bob") (create_database_users alice_session requested []).0
      ≡ some (err (CreateUserError.validation_error (authorization_error illegal_prefix))))
    × (get (codes "bob") (drop_database_users alice_session requested []).0
        ≡ some (err (DropUserError.validation_error (authorization_error illegal_prefix))))
    × (get (codes "bob") (lock_database_users alice_session requested []).0
        ≡ some (err (LockUserError.validation_error (authorization_error illegal_prefix))))
    × (get (codes "bob") (unlock_database_users alice_session requested []).0
        ≡ some (err (UnlockUserError.validation_error (authorization_error illegal_prefix))))
    × ((generated : Text) (password : PasswordSource)
        → set_password_for_database_user alice_session generated (codes "bob") password []
          ≡ (err (SetPasswordError.validation_error (authorization_error illegal_prefix)), []))
users_rejected_example =
    users_rejected alice_session requested (codes "bob") (authorization_error illegal_prefix) []
      bob_rejected (inl refl)
