-- ===== src/Log.antt =====
-- The queries of pseudolog.
pub mod Modes
pub mod Printed
