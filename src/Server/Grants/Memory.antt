-- ===== src/Server/Grants/Memory.antt =====
-- A connection for tests whose state is the table `db`, on which every database and user exists, and
-- which executes what Server/Grants/Syntax reads: the hypotheses on the connection hold of it.
use muscl.Prelude.{
  ◌≡◌, refl, ap, sym, ◌∙◌, true, Option, none, some, List, [], inl, Result, ok, err,
}
use muscl.Prelude.Text.{Text, codes}
use muscl.Privileges.Row.{DatabasePrivilegeRow}
use muscl.Server.Connection.{Connection, Session}
use muscl.Server.Recorder.{alice_session}
use muscl.Server.Grants.Syntax.{Statement, read_statement}
use muscl.Server.Grants.Table.{Table, Outcome, ServesGrants, meaning, selected}

abbrev meaning_of : Option Statement → List (Option Text) → Option (Table → Table)
meaning_of none values = none
meaning_of (some statement) values = meaning statement values

abbrev selected_of : Option Statement → List Text → Option (Table → Option DatabasePrivilegeRow)
selected_of none names = none
selected_of (some statement) names = selected statement names

abbrev turned : Option (Table → Table) → Table → Result Text (Unit {0}) × Table
turned none table = (err (codes "not supported"), table)
turned (some f) table = (ok tt, f table)

abbrev looked_up :
    Option (Table → Option DatabasePrivilegeRow) → Table → Result Text (Option DatabasePrivilegeRow)
looked_up none table = err (codes "not supported")
looked_up (some f) table = ok (f table)

abbrev pub memory : Connection Table
memory = record {
  fetch_any = λ sql names table. (ok true, table);
  fetch_bool = λ sql names table. (ok true, table);
  fetch_privilege =
      λ sql names table. (looked_up (selected_of (read_statement sql) names) table, table);
  fetch_privileges = λ sql names table. (ok [], table);
  fetch_row = λ sql names table. (ok none, table);
  fetch_rows = λ sql names table. (ok [], table);
  execute = λ sql values table. turned (meaning_of (read_statement sql) values) table;
}

abbrev pub memory_session : Session Table
memory_session = record {
  from_name = alice_session.from_name;
  regexes = alice_session.regexes;
  unix_user = alice_session.unix_user;
  group_denylist = alice_session.group_denylist;
  connection = memory;
  db_is_mariadb = true;
}

turned-keeps :
    (table : Table)
    → (turned (meaning_of (read_statement (codes "FLUSH PRIVILEGES")) []) table).1 ≡ table
unfolding read_statement
turned-keeps table = refl

pub memory-ServesGrants : ServesGrants memory (λ table. table)
memory-ServesGrants = record {
  any_keeps = λ sql names table h. refl;
  bool_keeps = λ sql names table h. refl;
  privilege_keeps = λ sql names table h. refl;
  finds = found;
  flush_keeps = turned-keeps;
  executes = executed;
}
  where
    found :
        (sql : Text) (names : List Text) (table : Table) (statement : Statement)
        (f : Table → Option DatabasePrivilegeRow) (row : Option DatabasePrivilegeRow)
        → read_statement sql ≡ some statement
        → selected statement names ≡ some f
        → looked_up (selected_of (read_statement sql) names) table ≡ ok row
        → row ≡ f table
    found sql names table statement f row e m h =
        let known : selected_of (read_statement sql) names ≡ some f =
          ap (λ x. selected_of x names) e ∙ m in
        let same = sym (ap (λ x. looked_up x table) known) ∙ h in cc

    executed :
        (sql : Text) (values : List (Option Text)) (table : Table) (statement : Statement)
        (f : Table → Table)
        → read_statement sql ≡ some statement
        → meaning statement values ≡ some f
        → Outcome (λ (t : Table). t) table f (turned (meaning_of (read_statement sql) values) table)
    executed sql values table statement f e m =
        let known : meaning_of (read_statement sql) values ≡ some f =
          ap (λ x. meaning_of x values) e ∙ m in
        rw known (inl (refl, refl))
