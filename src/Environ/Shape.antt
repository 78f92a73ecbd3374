-- ===== src/Environ/Shape.antt =====
-- The environment that pseudo_setupenvp makes for execve and posix_spawn.
