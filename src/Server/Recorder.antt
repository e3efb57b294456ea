-- ===== src/Server/Recorder.antt =====
-- A connection for tests: the state is the list of the statements that changed something, the last
-- one first; the names ending in `_old` are those of databases and users that exist.
use muscl.Prelude.{Bool, true, false, none, List, [], ◌∷◌, ok}
use muscl.Prelude.Text.{Text, codes, text_eq}
use muscl.Denylist.{new_denylist}
use muscl.Denylist.Engine.{engine}
use muscl.Server.Connection.{Connection, Session}

abbrev pub ends_in_old : Text → Bool
unfolding text_eq
ends_in_old [] = false
ends_in_old (c ∷ s) =
    let rest = ends_in_old s in elim (text_eq (c ∷ s) (codes "_old")) [ true ↦ true | false ↦ rest ]

abbrev first : List Text → Bool
first [] = false
first (s ∷ _) = ends_in_old s

abbrev pub recorder : Connection (List Text)
recorder = record {
  fetch_any = λ sql names log. (ok (first names), log);
  fetch_bool = λ sql names log. (ok (first names), log);
  fetch_privilege = λ sql names log. (ok none, log);
  fetch_privileges = λ sql names log. (ok [], log);
  fetch_row = λ sql names log. (ok none, log);
  fetch_rows = λ sql names log. (ok [], log);
  execute = λ sql values log. (ok tt, sql ∷ log);
}

abbrev pub alice_session : Session (List Text)
alice_session = record {
  from_name = λ _. none;
  regexes = engine;
  unix_user = record { username = codes "alice"; groups = codes "web" ∷ [] };
  group_denylist = new_denylist;
  connection = recorder;
  db_is_mariadb = true;
}
