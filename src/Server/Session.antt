-- ===== src/Server/Session.antt =====
-- server/session_handler.rs: the answer to a request, and the loop of a session over the requests
-- that its stream gives. The writes to the log and the counter of requests are left out.
pub mod Keep
pub mod Order
mod Tests
use muscl.Prelude.{
  Bool, true, false, Option, none, some, List, [], ◌∷◌, ◌++◌, if◌then◌else◌, all, ◌||◌, ◌&&◌, ◌==◌,
  leb,
}
use muscl.Prelude.Text.{Text, codes}
use muscl.Protocol.{Request, Response}
use muscl.Server.Connection.{Session}
use muscl.Server.Authorization.{check_authorization}
use muscl.Server.Prefixes.{list_valid_name_prefixes}
use muscl.Server.Databases.{create_databases, drop_databases}
use muscl.Server.Users.{
  create_database_users, drop_database_users, lock_database_users, unlock_database_users,
  set_password_for_database_user,
}
use muscl.Server.Grants.{apply_privilege_diffs, get_databases_privilege_data}
use muscl.Server.Lists.{
  complete_database_name, complete_user_name, list_databases, list_all_databases_for_user,
  list_database_users, list_all_database_users_for_unix_user, get_all_database_privileges,
}

-- `c.is_ascii_alphanumeric() || c == '_' || c == '-'` for every character
abbrev pub is_partial_name : Text → Bool
is_partial_name = all (λ c.
    (leb b'0' c && leb c b'9')
    || ((leb b'A' c && leb c b'Z') || ((leb b'a' c && leb c b'z') || (c == b'_' || c == b'-'))))

-- A response and the state after it.
abbrev pub answer : {S R : Type 0} → (R → Response) → R × S → Response × S
answer respond (r, s) = (respond r, s)

module _ {S : Type 0} (session : Session S) where
  abbrev prefixes : List Text
  prefixes =
      list_valid_name_prefixes session.from_name session.regexes session.group_denylist
        session.unix_user

  -- The `match` of `handle_request`, for the requests but `Exit`. The password `generated` is the
  -- one that is generated in this call, if one is.
  unfoldable pub respond : Text → Request → S → Option (Response × S)
  respond generated (Request.check_authorization xs) s =
      some (Response.check_authorization (check_authorization session xs), s)
  respond generated Request.list_valid_name_prefixes s =
      some (Response.list_valid_name_prefixes prefixes, s)
  respond generated (Request.complete_database_name prefix) s = some (
      if is_partial_name prefix
      then answer Response.complete_database_name (complete_database_name session prefix s)
      else (Response.complete_database_name [], s))
  respond generated (Request.complete_user_name prefix) s = some (
      if is_partial_name prefix
      then answer Response.complete_user_name (complete_user_name session prefix s)
      else (Response.complete_user_name [], s))
  respond generated (Request.create_databases names) s =
      some (answer Response.create_databases (create_databases session names s))
  respond generated (Request.drop_databases names) s =
      some (answer Response.drop_databases (drop_databases session names s))
  respond generated (Request.list_databases (some names) all_items) s =
      some (answer Response.list_databases (list_databases session all_items names s))
  respond generated (Request.list_databases none all_items) s =
      some (answer Response.list_all_databases (list_all_databases_for_user session all_items s))
  respond generated (Request.list_privileges (some names)) s =
      some (answer Response.list_privileges (get_databases_privilege_data session names s))
  respond generated (Request.list_privileges none) s =
      some (answer Response.list_all_privileges (get_all_database_privileges session s))
  respond generated (Request.modify_privileges diffs) s =
      some (answer Response.modify_privileges (apply_privilege_diffs session diffs s))
  respond generated (Request.create_users names) s =
      some (answer Response.create_users (create_database_users session names s))
  respond generated (Request.drop_users names) s =
      some (answer Response.drop_users (drop_database_users session names s))
  respond generated (Request.passwd_user u password) s = some (
      answer Response.set_user_password
        (set_password_for_database_user session generated u password s))
  respond generated (Request.list_users (some names) all_items) s =
      some (answer Response.list_users (list_database_users session all_items names s))
  respond generated (Request.list_users none all_items) s =
      some
        (answer Response.list_all_users (list_all_database_users_for_unix_user session all_items s))
  respond generated (Request.lock_users names) s =
      some (answer Response.lock_users (lock_database_users session names s))
  respond generated (Request.unlock_users names) s =
      some (answer Response.unlock_users (unlock_database_users session names s))
  respond generated Request.exit s = none

-- What `stream.next()` gives: a request, with the password that its handling would generate and
-- whether its response can be sent; or an error of the stream. The end of the list is the end of
-- the stream.
pub data Incoming : Type 0 where
  request : Text → Request → Bool → Incoming
  broken : Incoming

-- How a session has ended: with the request to exit, without it, or with an error of the stream.
pub data Ending : Type 0 where
  exited disconnected failed : Ending

-- The responses sent, how the session has ended, and the state of the server.
pub record Outcome (S : Type 0) : Type 0 where
  pub responses : List Response
  pub ending : Ending
  pub state : S

abbrev pub ended : {S : Type 0} → Ending → S → Outcome S
ended ending s = record { responses = []; ending = ending; state = s }

abbrev pub and_then : {S : Type 0} → Response → Outcome S → Outcome S
and_then response rest = record {
  responses = response ∷ rest.responses;
  ending = rest.ending;
  state = rest.state;
}

-- The rest of the loop after the answer to a request, if there is one: an error of sending it ends
-- the session.
abbrev pub after : {S : Type 0} → (S → Outcome S) → Bool → S → Option (Response × S) → Outcome S
after rest sent s none = ended exited s
after rest sent s (some (response, s')) =
    if sent then and_then response (rest s') else ended failed s'

module _ {S : Type 0} (session : Session S) where
  -- The `loop`, over what the stream gives.
  unfoldable pub handle_requests : List Incoming → S → Outcome S
  unfolding respond
  handle_requests [] s = ended disconnected s
  handle_requests (broken ∷ incoming) s = ended failed s
  handle_requests (request generated r sent ∷ incoming) s =
      after (handle_requests incoming) sent s (respond session generated r s)

  -- The first response is sent before the first request.
  unfoldable pub session_handler_with_db_connection : Bool → List Incoming → S → Outcome S
  unfolding handle_requests
  session_handler_with_db_connection ready_sent incoming s =
      let rest = handle_requests incoming s in
      if ready_sent then and_then Response.ready rest else ended failed s
