-- ===== src/Privileges.antt =====
-- core/database_privileges.rs
pub mod Row
pub mod RowDiff
pub mod Diff
mod Loop
pub mod Tables
pub mod State
pub mod Compare
pub mod Reduce
pub mod Cli
pub mod Editor
