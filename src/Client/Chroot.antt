-- ===== src/Client/Chroot.antt =====
-- base_path below a changed root.
use pseudo.Paths.Inside.{Inside}
