-- ===== src/Server/Config.antt =====
-- server/config.rs: the configuration and its comparison. A path stands for its components, which
-- `==` compares: it is written without what they leave out.
use muscl.Prelude.{ℕ, Bool, true, false, ◌&&◌, ◌==◌, Option, none, some}
use muscl.Prelude.Text.{Text, text_eq}

pub record MysqlConfig : Type 0 where
  pub socket_path : Option Text
  pub host : Option Text
  pub port : ℕ
  pub username : Option Text
  pub password : Option Text
  pub password_file : Option Text
  pub timeout : ℕ

pub record AuthorizationConfig : Type 0 where
  pub group_denylist_file : Option Text

pub record ServerConfig : Type 0 where
  pub socket_path : Option Text
  pub authorization : AuthorizationConfig
  pub mysql : MysqlConfig

unfoldable pub option_eq : Option Text → Option Text → Bool
unfolding text_eq
option_eq none none = true
option_eq (some s) (some t) = text_eq s t
option_eq _ _ = false

-- The derived `==` of `MysqlConfig`.
unfoldable pub mysql_eq : MysqlConfig → MysqlConfig → Bool
unfolding option_eq
mysql_eq c d =
    option_eq c.socket_path d.socket_path
    && option_eq c.host d.host
    && (c.port == d.port)
    && option_eq c.username d.username
    && option_eq c.password d.password
    && option_eq c.password_file d.password_file
    && (c.timeout == d.timeout)
