-- ===== src/Database.antt =====
-- The database client (Prisma over PostgreSQL) that the repositories call. It is not part of the
-- source, so a table is an interface: its operations, with the documented behaviour of each as a
-- law. A row set is a list; `conflicts` says which pairs of rows a unique index refuses.
mod Reference
pub mod Conflicts
pub use Reference.*
