-- ===== src/Privileges/Editor.antt =====
-- core/database_privileges/editor.rs: the rows that the text editor shows, what is read back from
-- it, and the errors shown between its lines.
pub mod Format
pub mod Parse
pub mod Duplicates
pub mod Markers
pub mod Stripped
mod Cells
pub mod RoundTrip
pub mod Content
pub mod Bounds
pub mod Distinct
pub mod Single
pub mod Edited
mod Tests
