-- ===== src/Supervisor/Tests.antt =====
-- Examples of server/supervisor.rs: the pool is the configuration that it is made with, and the
-- listener the path that it is bound to.
use muscl.Prelude.{
  ◌≡◌, ◌≢◌, refl, ap, sym, true, false, Option, none, some, [], ◌∷◌, Result, ok, err,
}
use muscl.Prelude.Text.{Text, codes, text_eq}
use muscl.Denylist.{new_denylist}
use muscl.Denylist.Engine.{engine}
use muscl.Server.Config.{MysqlConfig, ServerConfig, option_eq, mysql_eq}
use muscl.Supervisor.{
  accepting, paused, System, Supervisor, reload, reload_config, apply_changes, pool_step,
  listener_step, replace_listener, reload_listener, send, take_message, new_listener,
}
use muscl.Supervisor.InSync.{InSync, Follows, reload-InSync}
use muscl.Supervisor.Stands.{reload_all}
use muscl.Supervisor.Paused.{paused_after_failure}

abbrev mysql : MysqlConfig
mysql = record {
  socket_path = none;
  host = some (codes "localhost");
  port = 3306;
  username = some (codes "root");
  password = none;
  password_file = none;
  timeout = 2;
}

abbrev config_at : Text → ServerConfig
config_at path = record {
  socket_path = some path;
  authorization = record { group_denylist_file = none };
  mysql = mysql;
}

-- A system that reads the configuration with this path, and makes listeners as given.
abbrev system_at : Text → (Text → Result Text (Option Text)) → System MysqlConfig (Option Text)
system_at path listen = record {
  notify_reloading = ok tt;
  notify_ready = ok tt;
  channel_closed = codes "channel closed";
  read_config = ok (config_at path);
  read_to_string = λ _. err (codes "no file");
  digest = λ s. s;
  from_gid = λ _. none;
  from_name = λ _. none;
  regexes = engine;
  connect = λ c. ok c;
  version = λ _. ok (codes "11.4-MariaDB");
  listen_at = listen;
  listen_systemd = ok none;
}

abbrev started : Supervisor MysqlConfig (Option Text)
started = record {
  config = config_at (codes "/run/a");
  group_deny_list = new_denylist;
  group_denylist_file_hash = none;
  db_connection_pool = mysql;
  db_is_mariadb = true;
  listener = some (codes "/run/a");
  listener_task = accepting;
}

abbrev moving : System MysqlConfig (Option Text)
moving = system_at (codes "/run/b") (λ path. ok (some path))

abbrev failing : System MysqlConfig (Option Text)
failing = system_at (codes "/run/b") (λ path. err (codes "in use"))

moves : (reload moving started).0 ≡ ok tt
unfolding reload reload_config apply_changes pool_step listener_step replace_listener
    reload_listener send take_message mysql_eq option_eq text_eq
moves = refl

fails : Supervisor.listener_task (reload failing started).1 ≡ paused
unfolding reload reload_config apply_changes pool_step listener_step replace_listener
    reload_listener send take_message mysql_eq option_eq text_eq
fails = refl

moving-Follows : Follows (λ c. c) (λ path. path) moving
moving-Follows = record { connects = λ c p h. cc; binds = bound }
  where
    bound : (path : Option Text) (l : Option Text) → new_listener moving path ≡ ok l → l ≡ path
    bound none l h = cc
    bound (some path) l h = cc

reload-InSync_example :
    InSync (λ c. c) (λ path. path) (reload moving started).1
    × (System.read_config moving ≡ ok (Supervisor.config (reload moving started).1))
reload-InSync_example =
    reload-InSync (λ c. c) (λ path. path) moving moving-Follows started (refl, refl, refl) moves

configured : (reload_config failing started).0 ≡ ok tt
unfolding reload_config
configured = refl

abbrev path_read : Result Text ServerConfig → Option Text
path_read (ok config) = config.socket_path
path_read (err e) = none

paths_differ : some (codes "/run/b") ≢ some (codes "/run/a")
unfolding option_eq text_eq
paths_differ h =
    let both : true ≡ false = ap (λ path. option_eq path (some (codes "/run/b"))) h in absurd (cc)

paused_after_failure_example :
    Supervisor.listener_task (reload_all (failing ∷ moving ∷ []) started) ≡ paused
paused_after_failure_example =
    paused_after_failure failing (moving ∷ []) started (config_at (codes "/run/b")) (codes "in use")
      refl refl configured paths_differ refl refl ((λ new_config h. ap path_read (sym h)), tt)
