-- ===== src/Lib.antt =====
-- A verification library for muscl, which lets the users of a Unix host manage MySQL databases,
-- database users and privileges of their own. A client sends requests to a server that runs with
-- the rights of an administrator; the server checks that every name belongs to the user of the
-- client's process or to one of the user's groups, and executes statements on the MySQL server.
-- Privileges travel as diffs of rows, which the client computes from edits and the server checks
-- against the rows it has.
--
-- Paths are from the root of the repository:
-- - Prelude: shared names, results, lists, texts, and BTreeSet, BTreeMap and HashMap as lists.
-- - Privileges/Row: src/core/database_privileges/base.rs, the row and the names of its fields.
-- - Privileges/RowDiff, Diff, Tables, Compare, Reduce: src/core/database_privileges/diff.rs, a
--   module for each of DatabasePrivilegeRowDiff, DatabasePrivilegesDiff, the tables by database and
--   user, diff_privileges with create_or_modify_privilege_rows, and reduce_privilege_diffs.
--   Privileges/Loop and State hold the lemmas on the loops that insert diffs, and the state that a
--   sequence of diffs leaves.
-- - Privileges/Cli: src/core/database_privileges/cli.rs, the edits on the command line.
-- - Privileges/Editor: src/core/database_privileges/editor.rs. Format writes the content, Parse and
--   Duplicates read it, Markers writes errors between its lines; Edited puts the reading together
--   with the diffs, as src/client/commands/edit_privs.rs does.
-- - Denylist/File, Denylist/Lines: the parser of the denylist's file in src/server/authorization.rs.
-- - Denylist, Validation: src/core/protocol/request_validation.rs, the group denylist with its cache
--   of compiled patterns, and the checks of names and of their owner, with UnixUser of
--   src/core/common.rs and DbOrUser of src/core/types.rs.
--   Denylist/Regex reads expressions by the documented syntax of the crate regex, and states as a
--   hypothesis that the crate finds what they say.
-- - Server/Sql: src/server/sql.rs, the quoting, against a reader of MySQL's documented syntax.
-- - Server/Prefixes, Authorization: src/server/common.rs and check_authorization of
--   src/server/authorization.rs.
-- - Server/Connection: the connection to MySQL, a parameter, and the actions and loops over it.
-- - Server/Databases, Users, Grants: src/server/sql/database_operations.rs, user_operations.rs and
--   database_privilege_operations.rs, each operation with the checks before it and the statement
--   that it executes, and the errors of src/core/protocol/commands/. Server/Grants/Syntax
--   reads statements by MySQL's documented syntax, Server/Grants/Table states as hypotheses on the
--   connection what the statements that are read do to the table of privileges with the values
--   bound to them, and Server/Grants/EndToEnd puts the client's diffs and the server's operation
--   together.
-- - Server/Lists: the operations of the same files that only read, with the texts of their queries.
-- - Protocol: src/core/protocol/commands.rs, requests, responses and what the log says of both; with
--   the messages of the errors of src/core/protocol/ in Protocol/Messages.
-- - Server/Session: src/server/session_handler.rs, the answer to each request and the loop of a
--   session over what its stream gives.
-- - AdmUtils: src/client/mysql_admutils_compatibility/, common.rs and error_messages.rs, the names
--   and the messages of the commands mysql-dbadm and mysql-useradm.
-- - Supervisor: src/server/supervisor.rs, the reload of the configuration with the pool of
--   connections and the listener, and the messages to the task that accepts connections; with the
--   configuration of src/server/config.rs in Server/Config.
--
-- Texts are lists of code points. Every loop of the code is structural recursion over the list that
-- it goes through; the decimal digits of a number alone are written with fuel, one more than the
-- number, which has no more digits than that. Lengths and counts are natural numbers: no
-- computation of the modelled code can overflow. A method on `&mut self` returns the new value, and
-- an asynchronous operation on the connection returns a result and the server's state after it.
--
-- Parameters of the model: the group database of the system, the engine of regular expressions, the
-- MySQL connection over a state of any type, the generator of passwords, and what the calls of the
-- system give in a reload: reading files, making a pool or a listener, notifying systemd.
--
-- Not modelled: the encoding of the network protocol, the start-up, shutdown and watchdog of the
-- supervisor and its tasks but for their messages in a reload, the commands of the client but for
-- the editor, the edits and the messages, shell completion, sandboxing, and the tables and lines
-- that are printed or logged. But for the commands of the client, these are calls of libraries
-- around little logic.
pub mod AdmUtils
pub mod Denylist
pub mod Prelude
pub mod Privileges
pub mod Protocol
pub mod Server
pub mod Supervisor
pub mod Validation
