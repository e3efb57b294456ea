-- ===== src/Server/Databases/Tests.antt =====
-- Runs of the operations on databases, and their theorems at sample requests.
use muscl.Prelude.{◌≡◌, refl, List, [], ◌∷◌, ok, err}
use muscl.Prelude.Text.{Text, codes, text_eq, starts_with}
use muscl.Prelude.Ordered.{text_ord, cmp_list, insert_at}
use muscl.Denylist.{matches}
use muscl.Validation.{
  authorization_error, illegal_prefix, validate_name, validate_authorization_by_unix_user,
  validate_authorization_by_group_denylist, validate_db_or_user_request,
}
use muscl.Server.Sql.{quote_identifier, replace}
use muscl.Server.Connection.{validate, for_each}
use muscl.Server.Recorder.{alice_session}
use muscl.Server.Databases.{
  CreateDatabaseError, database_already_exists, create_database, create_databases,
  unsafe_database_exists,
}

abbrev requested : List Text
requested = codes "bob_db" ∷ codes "alice_old" ∷ codes "web_new" ∷ []

created : create_databases alice_session requested [] ≡ (
  (codes "alice_old", err database_already_exists)
      ∷ (
        codes "bob_db",
        err (CreateDatabaseError.validation_error (authorization_error illegal_prefix)),
      )
      ∷ (codes "web_new", ok tt)
      ∷ [],
  codes "CREATE DATABASE `web_new`" ∷ [],
)
unfolding create_databases create_database for_each insert_at cmp_list validate
    validate_db_or_user_request validate_name validate_authorization_by_unix_user
    validate_authorization_by_group_denylist starts_with text_eq matches unsafe_database_exists
    quote_identifier replace
created = refl
