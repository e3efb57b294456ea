-- ===== src/Server/Authorization/Tests.antt =====
-- The theorem on `check_authorization` at a sample request.
use muscl.Prelude.{◌≡◌, none, some, List, [], ◌∷◌, Has}
use muscl.Prelude.Text.{codes}
use muscl.Prelude.Ordered.{get}
use muscl.Validation.{DbOrUser, database, user}
use muscl.Server.Connection.{validate}
use muscl.Server.Recorder.{alice_session}
use muscl.Server.Authorization.{db_or_user_ord, check_authorization}
use muscl.Server.Authorization.Answers.{check_authorization_exact}

abbrev asked : List DbOrUser
asked = user (codes "alice_u") ∷ database (codes "bob_db") ∷ []

check_authorization_exact_example :
    (Has (database (codes "bob_db")) asked
      → get (database (codes "bob_db")) (check_authorization alice_session asked)
        ≡ some (validate alice_session (database (codes "bob_db"))))
    × ((Has (database (codes "bob_db")) asked → ⊥)
        → get (database (codes "bob_db")) (check_authorization alice_session asked) ≡ none)
check_authorization_exact_example =
    check_authorization_exact alice_session asked (database (codes "bob_db"))
