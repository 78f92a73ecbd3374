-- ===== src/Db.antt =====
-- The file database: pseudo_db.c on the tables files and xattrs.
pub mod Column
pub mod Tables
pub mod Order
pub mod Xattrs
pub mod Files
pub mod Select
pub mod Orphans
pub mod Pending
pub mod Find
pub mod Named
pub mod Rename
pub mod Corrected
