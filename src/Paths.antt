-- ===== src/Paths.antt =====
-- The canonical form of a path: pseudo_fix_path of pseudo_util.c.
pub mod Elements
pub mod Fix
pub mod Walks
pub mod Contained
pub mod Inside
pub mod Dots
pub mod Names
pub mod Directories
