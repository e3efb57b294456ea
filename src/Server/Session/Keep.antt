-- ===== src/Server/Session/Keep.antt =====
-- server/session_handler.rs: names that do not pass the validation leave no trace on the server,
-- whatever the requests of a session.
use muscl.Prelude.{
  ◌≡◌, refl, ◌∙◌, ap, Bool, Bool-cases, true, false, Option, none, some, List, [], ◌∷◌, keep,
  if◌then◌else◌, map, inl, inr, arith,
}
use muscl.Prelude.Text.{Text}
use muscl.Validation.{database, user}
use muscl.Protocol.{Request, Response}
use muscl.Server.Connection.{Session, is_valid}
use muscl.Server.Databases.Effects.{databases-keep}
use muscl.Server.Users.{PasswordSource, set_password_for_database_user}
use muscl.Server.Users.Effects.{users-keep}
use muscl.Server.Grants.Effects.{is_valid_diff, apply_privilege_diffs-keep}
use muscl.Server.Lists.Answers.{lists-keep}
use muscl.Server.Session.{
  respond, Incoming, request, broken, Outcome, after, handle_requests,
  session_handler_with_db_connection,
}

-- Two answers that leave the server in the same state.
abbrev AgreeInState : {S : Type 0} → Option (Response × S) → Option (Response × S) → Type 0
AgreeInState none none = Unit
AgreeInState (some (r, s)) (some (r', s')) = s ≡ s'
AgreeInState none (some a) = ⊥
AgreeInState (some a) none = ⊥

module _ {S : Type 0} (session : Session S) where
  -- The request for those of its names alone that pass the validation. A new password for another
  -- name becomes a request that does not ask the server.
  abbrev pub valid_part : Request → Request
  valid_part (Request.create_databases names) =
      Request.create_databases (keep (λ n. is_valid session (database n)) names)
  valid_part (Request.drop_databases names) =
      Request.drop_databases (keep (λ n. is_valid session (database n)) names)
  valid_part (Request.list_databases (some names) all) =
      Request.list_databases (some (keep (λ n. is_valid session (database n)) names)) all
  valid_part (Request.list_privileges (some names)) =
      Request.list_privileges (some (keep (λ n. is_valid session (database n)) names))
  valid_part (Request.modify_privileges diffs) =
      Request.modify_privileges (keep (is_valid_diff session) diffs)
  valid_part (Request.create_users names) =
      Request.create_users (keep (λ n. is_valid session (user n)) names)
  valid_part (Request.drop_users names) =
      Request.drop_users (keep (λ n. is_valid session (user n)) names)
  valid_part (Request.passwd_user u password) =
      if is_valid session (user u)
      then Request.passwd_user u password
      else Request.list_valid_name_prefixes
  valid_part (Request.list_users (some names) all) =
      Request.list_users (some (keep (λ n. is_valid session (user n)) names)) all
  valid_part (Request.lock_users names) =
      Request.lock_users (keep (λ n. is_valid session (user n)) names)
  valid_part (Request.unlock_users names) =
      Request.unlock_users (keep (λ n. is_valid session (user n)) names)
  valid_part r = r

  abbrev pub valid_incoming : Incoming → Incoming
  valid_incoming (request generated r sent) = request generated (valid_part r) sent
  valid_incoming broken = broken

  agree_refl : (o : Option (Response × S)) → AgreeInState o o
  agree_refl none = tt
  agree_refl (some (r, s)) = refl

  set_password_skips :
      (generated : Text) (u : Text) (password : PasswordSource) (s : S)
      → is_valid session (user u) ≡ false
      → (set_password_for_database_user session generated u password s).1 ≡ s
  unfolding set_password_for_database_user
  set_password_skips generated u password s h = ground arith

  respond-keep :
      (generated : Text) (r : Request) (s : S)
      → AgreeInState (respond session generated r s) (respond session generated (valid_part r) s)
  unfolding respond
  respond-keep generated (Request.create_databases names) s = (databases-keep session names s).0
  respond-keep generated (Request.drop_databases names) s = (databases-keep session names s).1
  respond-keep generated (Request.list_databases (some names) all) s =
      (lists-keep session all names s).0
  respond-keep generated (Request.list_databases none all) s = refl
  respond-keep generated (Request.list_privileges (some names)) s =
      (lists-keep session true names s).1
  respond-keep generated (Request.list_privileges none) s = refl
  respond-keep generated (Request.modify_privileges diffs) s =
      apply_privilege_diffs-keep session diffs s
  respond-keep generated (Request.create_users names) s = (users-keep session names s).0
  respond-keep generated (Request.drop_users names) s = (users-keep session names s).1
  respond-keep generated (Request.passwd_user u password) s =
      elim (Bool-cases (is_valid session (user u))) [
        | inl valid ↦ rw valid refl
        | inr rejected ↦ rw rejected (set_password_skips generated u password s rejected)
      ]
  respond-keep generated (Request.list_users (some names) all) s =
      (lists-keep session all names s).2
  respond-keep generated (Request.list_users none all) s = refl
  respond-keep generated (Request.lock_users names) s = (users-keep session names s).2
  respond-keep generated (Request.unlock_users names) s = (users-keep session names s).3
  respond-keep generated (Request.check_authorization xs) s = refl
  respond-keep generated Request.list_valid_name_prefixes s = refl
  respond-keep generated (Request.complete_database_name prefix) s =
      agree_refl (respond session generated (Request.complete_database_name prefix) s)
  respond-keep generated (Request.complete_user_name prefix) s =
      agree_refl (respond session generated (Request.complete_user_name prefix) s)
  respond-keep generated Request.exit s = tt

  after-keep :
      (rest rest' : S → Outcome S)
      → ((s : S) → Outcome.state (rest s) ≡ Outcome.state (rest' s))
      → (sent : Bool) (s : S) (o o' : Option (Response × S)) → AgreeInState o o'
      → Outcome.state (after rest sent s o) ≡ Outcome.state (after rest' sent s o')
  after-keep rest rest' h sent s none none e = refl
  after-keep rest rest' h sent s none (some a) e = absurd e
  after-keep rest rest' h sent s (some a) none e = absurd e
  after-keep rest rest' h true s (some (r, t)) (some (r', t')) e =
      h t ∙ ap (λ x. Outcome.state (rest' x)) e
  after-keep rest rest' h false s (some (r, t)) (some (r', t')) e = e

  handle_requests-keep :
      (incoming : List Incoming) (s : S)
      → Outcome.state (handle_requests session incoming s)
        ≡ Outcome.state (handle_requests session (map valid_incoming incoming) s)
  unfolding handle_requests
  handle_requests-keep [] s = refl
  handle_requests-keep (broken ∷ incoming) s = refl
  handle_requests-keep (request generated r sent ∷ incoming) s =
      after-keep (handle_requests session incoming)
        (handle_requests session (map valid_incoming incoming)) (handle_requests-keep incoming) sent
        s (respond session generated r s) (respond session generated (valid_part r) s)
        (respond-keep generated r s)

  -- Whatever requests come in, and however the session ends, it leaves the server in the state that
  -- the same session leaves whose requests name only what passes the validation.
  pub session-keep :
      (ready_sent : Bool) (incoming : List Incoming) (s : S)
      → Outcome.state (session_handler_with_db_connection session ready_sent incoming s)
        ≡ Outcome.state
            (session_handler_with_db_connection session ready_sent (map valid_incoming incoming) s)
  unfolding session_handler_with_db_connection
  session-keep true incoming s = handle_requests-keep incoming s
  session-keep false incoming s = refl
