-- ===== src/Supervisor.antt =====
-- server/supervisor.rs: the reload of the configuration, the pool of connections and the listener,
-- and the messages to the task that accepts connections. The system's calls in a reload are a
-- parameter, with the result of each. A message is taken
-- before the next step: `reload_listener` waits for the lock that the listener's task holds until
-- it has taken the message to stop.
pub mod Sync
pub mod InSync
pub mod Stands
pub mod Paused
mod Tests
use muscl.Prelude.{
  ℕ, ◌+◌, Bool, true, false, not, ◌&&◌, ◌||◌, ◌==◌, leb, if◌then◌else◌, Option, none, some, List,
  [], ◌∷◌, ◌++◌, Result, ok, err, length, map,
}
use muscl.Prelude.Text.{Text, codes, text_eq, starts_with}
use muscl.Prelude.Lines.{lines}
use muscl.Prelude.Words.{join}
use muscl.Prelude.Decimal.{decimal}
use muscl.Denylist.{Group, Regexes, GroupDenylist, new_denylist}
use muscl.Denylist.File.{parse_group_denylist}
use muscl.Server.Config.{MysqlConfig, AuthorizationConfig, ServerConfig, option_eq, mysql_eq}
use muscl.Server.Connection.{Action, done, fail, lift, ◌>>=◌, ◌>>◌}

-- `SupervisorMessage`
pub data SupervisorMessage : Type 0 where
  stop_accepting_new_connections resume_accepting_new_connections shutdown : SupervisorMessage

-- Where the listener's task is: in its loop, in the inner loop after a message to stop, or returned.
pub data Phase : Type 0 where
  accepting paused returned : Phase

-- `match message` in the two loops of `listener_task`.
unfoldable pub take_message : SupervisorMessage → Phase → Phase
take_message stop_accepting_new_connections accepting = paused
take_message shutdown accepting = returned
take_message resume_accepting_new_connections accepting = accepting
take_message stop_accepting_new_connections paused = paused
take_message resume_accepting_new_connections paused = accepting
take_message shutdown paused = returned
take_message message returned = returned

-- The contexts of the errors in `stop_receiving_new_connections`, `resume_receiving_new_connections`
-- and `shutdown`.
abbrev send_context : SupervisorMessage → Text
send_context stop_accepting_new_connections =
    codes "Failed to send stop accepting new connections message to listener task"
send_context resume_accepting_new_connections =
    codes "Failed to send resume accepting new connections message to listener task"
send_context shutdown = codes "Failed to send shutdown message to listener task"

-- What the calls of libraries and of the system give in one reload.
pub record System (P L : Type 0) : Type 0 where
  pub notify_reloading : Result Text (Unit {0})
  pub notify_ready : Result Text (Unit {0})
  -- the error of a channel without receivers
  pub channel_closed : Text
  -- `ServerConfig::read_config_from_path`
  pub read_config : Result Text ServerConfig
  pub read_to_string : Text → Result Text Text
  pub digest : Text → Text
  pub from_gid : ℕ → Option Group
  pub from_name : Text → Option Group
  pub regexes : Regexes
  -- `create_db_connection_pool` and the query of the version
  pub connect : MysqlConfig → Result Text P
  pub version : P → Result Text Text
  -- `create_unix_listener_with_socket_path` and `create_unix_listener_with_systemd_socket`
  pub listen_at : Text → Result Text L
  pub listen_systemd : Result Text L

pub record Supervisor (P L : Type 0) : Type 0 where
  pub config : ServerConfig
  pub group_deny_list : GroupDenylist
  pub group_denylist_file_hash : Option Text
  pub db_connection_pool : P
  pub db_is_mariadb : Bool
  pub listener : L
  pub listener_task : Phase

abbrev lower : ℕ → ℕ
lower c = if leb b'A' c && leb c b'Z' then c + 32 else c

abbrev lowercase : Text → Text
lowercase [] = []
lowercase (c ∷ s) = lower c ∷ lowercase s

abbrev contains_text : Text → Text → Bool
contains_text [] p = starts_with [] p
contains_text (c ∷ s) p = let rest = contains_text s p in starts_with (c ∷ s) p || rest

-- `version.to_lowercase().contains("mariadb")`: the lower case of no letter outside ASCII makes
-- it appear.
pub is_mariadb : Text → Bool
unfolding starts_with
is_mariadb version = contains_text (lowercase version) (codes "mariadb")

-- Change the state.
abbrev pub modify : {S E : Type 0} → (S → S) → Action S E (Unit {0})
modify f s = (ok tt, f s)

abbrev pub read : {S E A : Type 0} → (S → A) → Action S E A
read f s = (ok (f s), s)

-- `errors.push(e.context(..))` for an error, with the chain of contexts that `{e:#}` writes.
abbrev pub push_error : Text → List Text → Result Text (Unit {0}) → List Text
push_error context errors (ok u) = errors
push_error context errors (err e) = errors ++ (context ++ (codes ": " ++ e)) ∷ []

abbrev pub collect_error :
    {S : Type 0} → Text → Action S Text (Unit {0}) → List Text → Action S Text (List Text)
collect_error context m errors s = (ok (push_error context errors (m s).0), (m s).1)

module _ {P L : Type 0} (system : System P L) where
  -- `supervisor_message_sender.send`, which the listener's task takes; once it has returned, there is
  -- nothing that receives messages.
  abbrev pub send_to : Phase → SupervisorMessage → Action (Supervisor P L) Text (Unit {0})
  send_to accepting message =
      modify (λ s. record s { listener_task = take_message message accepting })
  send_to paused message = modify (λ s. record s { listener_task = take_message message paused })
  send_to returned message = fail (send_context message ++ (codes ": " ++ system.channel_closed))

  unfoldable pub send : SupervisorMessage → Action (Supervisor P L) Text (Unit {0})
  unfolding take_message
  send message s = send_to s.listener_task message s

  abbrev pub store_denylist : GroupDenylist → Option Text → Action (Supervisor P L) Text (Unit {0})
  store_denylist denylist hash =
      modify (λ s. record s { group_denylist_file_hash = hash; group_deny_list = denylist })

  -- The content of the file, unless its hash is the last one.
  unfoldable pub load_denylist : Text → Option Text → Action (Supervisor P L) Text (Unit {0})
  unfolding option_eq
  load_denylist content last_hash =
      let hash = system.digest content in
      if option_eq last_hash (some hash)
      then done tt
      else store_denylist
          (parse_group_denylist system.from_gid system.from_name system.regexes (lines content))
          (some hash)

  abbrev pub reload_denylist : Option Text → Action (Supervisor P L) Text (Unit {0})
  reload_denylist none = store_denylist new_denylist none
  reload_denylist (some path) = lift (system.read_to_string path) >>= λ content.
      read (λ s. Supervisor.group_denylist_file_hash s) >>= λ last_hash.
      load_denylist content last_hash

  unfoldable pub reload_config : Action (Supervisor P L) Text (Unit {0})
  unfolding load_denylist
  reload_config = lift system.read_config >>= λ new_config.
      modify (λ s. record s { config = new_config })
      >> reload_denylist new_config.authorization.group_denylist_file

  unfoldable pub restart_db_connection_pool : Action (Supervisor P L) Text (Unit {0})
  unfolding is_mariadb
  restart_db_connection_pool = read (λ s. ServerConfig.mysql (Supervisor.config s)) >>= λ mysql.
      lift (system.connect mysql) >>= λ pool. lift (system.version pool) >>= λ version.
      modify (λ s. record s { db_connection_pool = pool; db_is_mariadb = is_mariadb version })

  abbrev pub new_listener : Option Text → Result Text L
  new_listener (some path) = system.listen_at path
  new_listener none = system.listen_systemd

  unfoldable pub reload_listener : Action (Supervisor P L) Text (Unit {0})
  reload_listener = read (λ s. ServerConfig.socket_path (Supervisor.config s)) >>= λ path.
      lift (new_listener path) >>= λ l. modify (λ s. record s { listener = l })

  -- The closure for a changed socket path. Waiting for the sessions to finish does not fail, since
  -- the semaphore is never closed.
  unfoldable pub replace_listener : Action (Supervisor P L) Text (Unit {0})
  unfolding send reload_listener
  replace_listener =
      send stop_accepting_new_connections
      >> (reload_listener >> send resume_accepting_new_connections)

  abbrev pub report : List Text → Action (Supervisor P L) Text (Unit {0})
  report [] = done tt
  report (e ∷ errors) = fail (
      codes "Reload completed with "
      ++ (decimal (length (e ∷ errors))
          ++ (codes " error(s):\n"
              ++ join (codes "\n") (map (λ text. codes "- " ++ text) (e ∷ errors)))))

  -- The two parts of a reload that follow a change of the configuration.
  unfoldable pub pool_step : ServerConfig → Action (Supervisor P L) Text (List Text)
  unfolding mysql_eq restart_db_connection_pool
  pool_step previous_config s =
      (if mysql_eq s.config.mysql previous_config.mysql
          then done []
          else collect_error (codes "Failed to restart database connection pool")
              restart_db_connection_pool [])
        s

  unfoldable pub listener_step : ServerConfig → List Text → Action (Supervisor P L) Text (List Text)
  unfolding option_eq replace_listener
  listener_step previous_config errors s =
      (if option_eq s.config.socket_path previous_config.socket_path
          then done errors
          else collect_error (codes "Failed to reload listener with new socket path")
              replace_listener errors)
        s

  unfoldable pub apply_changes : ServerConfig → Action (Supervisor P L) Text (List Text)
  unfolding pool_step listener_step
  apply_changes previous_config =
      pool_step previous_config >>= λ errors. listener_step previous_config errors

  abbrev pub finish : List Text → Action (Supervisor P L) Text (Unit {0})
  finish errors = lift system.notify_ready >> report errors

  -- The reload after the notification, with the configuration before it.
  abbrev pub reload_from : ServerConfig → Action (Supervisor P L) Text (Unit {0})
  reload_from previous_config =
      reload_config >> (apply_changes previous_config >>= λ errors. finish errors)

  unfoldable pub reload : Action (Supervisor P L) Text (Unit {0})
  unfolding reload_config apply_changes decimal join
  reload =
      lift system.notify_reloading
      >> (read (λ s. Supervisor.config s) >>= λ previous_config. reload_from previous_config)
