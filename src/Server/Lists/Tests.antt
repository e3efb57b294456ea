-- ===== src/Server/Lists/Tests.antt =====
-- Examples of the operations that only read.
use muscl.Prelude.{◌≡◌, refl, some, List, [], ◌∷◌, inl, true, err}
use muscl.Prelude.Text.{Text, codes, text_eq, starts_with}
use muscl.Prelude.Ordered.{text_ord, get}
use muscl.Validation.{
  database, user, authorization_error, illegal_prefix, validate_name,
  validate_authorization_by_unix_user, validate_authorization_by_group_denylist,
  validate_db_or_user_request,
}
use muscl.Denylist.{matches}
use muscl.Server.Connection.{validate}
use muscl.Server.Recorder.{alice_session}
use muscl.Server.Grants.{get_databases_privilege_data, ListPrivilegesError}
use muscl.Server.Lists.{list_databases, ListDatabasesError, list_database_users, ListUsersError}
use muscl.Server.Lists.Answers.{lists_rejected}

bob_database_rejected :
    validate alice_session (database (codes "bob_db")) ≡ err (authorization_error illegal_prefix)
unfolding validate validate_db_or_user_request validate_name validate_authorization_by_unix_user
    validate_authorization_by_group_denylist starts_with text_eq matches
bob_database_rejected = refl

bob_user_rejected :
    validate alice_session (user (codes "bob_db")) ≡ err (authorization_error illegal_prefix)
unfolding validate validate_db_or_user_request validate_name validate_authorization_by_unix_user
    validate_authorization_by_group_denylist starts_with text_eq matches
bob_user_rejected = refl

abbrev requested : List Text
requested = codes "bob_db" ∷ codes "alice_old" ∷ []

lists_rejected_example :
    (get (codes "bob_db") (list_databases alice_session true requested []).0
      ≡ some (err (ListDatabasesError.validation_error (authorization_error illegal_prefix))))
    × (get (codes "bob_db") (get_databases_privilege_data alice_session requested []).0
        ≡ some (err (ListPrivilegesError.validation_error (authorization_error illegal_prefix))))
    × (get (codes "bob_db") (list_database_users alice_session true requested []).0
        ≡ some (err (ListUsersError.validation_error (authorization_error illegal_prefix))))
lists_rejected_example =
    lists_rejected alice_session true requested (codes "bob_db")
      (authorization_error illegal_prefix) (authorization_error illegal_prefix) []
      bob_database_rejected bob_user_rejected (inl refl)
