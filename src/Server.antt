-- ===== src/Server.antt =====
-- The server: its statements on the database, server/sql.rs and server/sql/.
pub mod Config
pub mod Connection
pub mod Sql
pub mod Databases
pub mod Users
pub mod Grants
pub mod Prefixes
pub mod Authorization
pub mod Lists
pub mod Session
mod Recorder
