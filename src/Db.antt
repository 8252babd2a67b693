-- ===== src/Db.antt =====
-- crates/hub-db/src/lib.rs with the tables of migrations/: the durable store. A table is the list of
-- its rows in the order of rowid; a constraint of the schema that a statement breaks is an error, and
-- leaves the rows as they were. An identifier is a text or a number. The disk is taken not to fail.
mod Table
pub mod Approvals
pub mod Sessions
pub mod Turns
pub mod Profiles
pub mod Segments
pub mod Reviews
pub use Table.*
mod Tests
