-- ===== src/Server/Session/Tests.antt =====
-- Examples of server/session_handler.rs.
use muscl.Prelude.{◌≡◌, refl, true, List, [], ◌∷◌, ◌++◌, map}
use muscl.Prelude.Text.{Text, codes}
use muscl.Protocol.{Request}
use muscl.Server.Recorder.{alice_session}
use muscl.Server.Session.{request, Outcome, session_handler_with_db_connection}
use muscl.Server.Session.Keep.{valid_incoming, session-keep}
use muscl.Server.Session.Order.{Exits, sent_requests, session-exit}

abbrev creations : List (Text × Request)
creations =
    ([], Request.create_databases (codes "alice_a" ∷ codes "bob_b" ∷ []))
    ∷ ([], Request.create_users (codes "alice" ∷ codes "alice_u" ∷ []))
    ∷ []

session-keep_example :
    Outcome.state
      (session_handler_with_db_connection alice_session true (sent_requests creations) [])
    ≡ Outcome.state (
        session_handler_with_db_connection alice_session true
          (map (valid_incoming alice_session) (sent_requests creations))
          [])
session-keep_example = session-keep alice_session true (sent_requests creations) []

session-exit_example :
    Exits alice_session 3
      (session_handler_with_db_connection alice_session true
        (sent_requests creations
          ++ request [] Request.exit true
            ∷ request [] (Request.drop_users (codes "alice_u" ∷ [])) true
            ∷ [])
        [])
      (session_handler_with_db_connection alice_session true
        (sent_requests creations ++ request [] Request.exit true ∷ [])
        [])
session-exit_example =
    session-exit alice_session creations [] true
      (request [] (Request.drop_users (codes "alice_u" ∷ [])) true ∷ []) [] (refl, (refl, tt))
