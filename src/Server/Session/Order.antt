-- ===== src/Server/Session/Order.antt =====
-- server/session_handler.rs: every request before the one to exit is answered, in turn, and the
-- session ends with that one.
use muscl.Prelude.{
  ◌≡◌, refl, ap, ℕ, suc, Bool, true, false, none, some, List, [], ◌∷◌, ◌++◌, length, map, All,
}
use muscl.Prelude.Text.{Text}
use muscl.Protocol.{Request, Response}
use muscl.Server.Connection.{Session}
use muscl.Server.Session.{
  respond, Incoming, request, Outcome, exited, and_then, handle_requests,
  session_handler_with_db_connection,
}

abbrev pub is_exit : Request → Bool
is_exit Request.exit = true
is_exit _ = false

-- Requests whose responses can all be sent, with the passwords generated for them.
abbrev pub sent_requests : List (Text × Request) → List Incoming
sent_requests = map (λ (generated, r). request generated r true)

abbrev pub NoExit : List (Text × Request) → Type 0
NoExit = All (λ (generated, r). is_exit r ≡ false)

module _ {S : Type 0} (session : Session S) where
  respond-some :
      (generated : Text) (r : Request) (s : S)
      → is_exit r ≡ false
      → (answer : Response × S) × (respond session generated r s ≡ some answer)
  unfolding respond
  respond-some generated (Request.check_authorization xs) s h = (_, refl)
  respond-some generated Request.list_valid_name_prefixes s h = (_, refl)
  respond-some generated (Request.complete_database_name prefix) s h = (_, refl)
  respond-some generated (Request.complete_user_name prefix) s h = (_, refl)
  respond-some generated (Request.create_databases names) s h = (_, refl)
  respond-some generated (Request.drop_databases names) s h = (_, refl)
  respond-some generated (Request.list_databases (some names) all) s h = (_, refl)
  respond-some generated (Request.list_databases none all) s h = (_, refl)
  respond-some generated (Request.list_privileges (some names)) s h = (_, refl)
  respond-some generated (Request.list_privileges none) s h = (_, refl)
  respond-some generated (Request.modify_privileges diffs) s h = (_, refl)
  respond-some generated (Request.create_users names) s h = (_, refl)
  respond-some generated (Request.drop_users names) s h = (_, refl)
  respond-some generated (Request.passwd_user u password) s h = (_, refl)
  respond-some generated (Request.list_users (some names) all) s h = (_, refl)
  respond-some generated (Request.list_users none all) s h = (_, refl)
  respond-some generated (Request.lock_users names) s h = (_, refl)
  respond-some generated (Request.unlock_users names) s h = (_, refl)
  respond-some generated Request.exit s h = absurd (cc)

  -- The outcome of a session that has answered some requests, whatever comes after the exit.
  abbrev pub Exits : ℕ → Outcome S → Outcome S → Type 0
  Exits n outcome outcome' =
      (outcome ≡ outcome')
      × (Outcome.ending outcome ≡ exited)
      × (length (Outcome.responses outcome) ≡ n)

  handle_requests-exit :
      (requests : List (Text × Request)) (generated : Text) (sent : Bool) (incoming : List Incoming)
      (s : S)
      → NoExit requests
      → Exits
          (length requests)
          (handle_requests session
            (sent_requests requests ++ request generated Request.exit sent ∷ incoming)
            s)
          (handle_requests session
            (sent_requests requests ++ request generated Request.exit sent ∷ [])
            s)
  unfolding handle_requests respond
  handle_requests-exit [] generated sent incoming s h = (refl, refl, refl)
  handle_requests-exit ((g, r) ∷ requests) generated sent incoming s (here, h) =
      let ((response, t), e) = respond-some g r s here in
      let (same, ends, count) = handle_requests-exit requests generated sent incoming t h in
      rw e (ap (and_then response) same, ends, ap suc count)

  -- A session whose responses can be sent answers each request before the one to exit with one
  -- response, after the first, and ends there; what the client sends later is not read.
  pub session-exit :
      (requests : List (Text × Request)) (generated : Text) (sent : Bool) (incoming : List Incoming)
      (s : S)
      → NoExit requests
      → Exits
          (suc (length requests))
          (session_handler_with_db_connection session true
            (sent_requests requests ++ request generated Request.exit sent ∷ incoming)
            s)
          (session_handler_with_db_connection session true
            (sent_requests requests ++ request generated Request.exit sent ∷ [])
            s)
  unfolding session_handler_with_db_connection
  session-exit requests generated sent incoming s h =
      let (same, ends, count) = handle_requests-exit requests generated sent incoming s h in
      (ap (and_then Response.ready) same, ends, ap suc count)
