-- ===== src/Tests/Wrapping.antt =====
-- Runs of the wrappers: the removal and the rename of /a, and the creation of /d.
use pseudo.Prelude.{◌≡◌, refl, true, false, none, some, [], ◌∷◌, Str, arith, ℤ, pos}
use Prim.Native.Nat.{ℕ, bit_or}
use pseudo.Client.Request.{Stat}
use pseudo.Wrappers.Calls.{at_fdcwd, base_lstat}
use pseudo.Wrappers.Acl.{posix_permissions, permissions, shared_setxattr, acl_access}
use pseudo.Wrappers.AclMode.{acl_of, chmod_known, shared_setxattr-acl_of}
use pseudo.Wrappers.Modes.{fs_mode, db_mode, db_mode-fs_mode}
use pseudo.Wrappers.Remove.{unlinkat, rmdir, remove}
use pseudo.Wrappers.Rename.{renameat, rename_path}
use pseudo.Wrappers.Create.{mkdirat, mknodat, mkfifoat, symlinkat}
use pseudo.Wrappers.Link.{linkat}
use pseudo.Wrappers.Settled.{Settles, wrappers-Settles}
use pseudo.Wrappers.Honest.{Honest}
use pseudo.Wrappers.Honest.Making.{wrappers-Honest}

abbrev path_a : Str
path_a = b'/' ∷ b'a' ∷ []

abbrev path_d : Str
path_d = b'/' ∷ b'd' ∷ []

abbrev zeros : Stat
zeros = record { uid = 0; gid = 0; dev = 0; ino = 0; mode = 0; rdev = 0; nlink = 0 }

abbrev same_path : ℤ → Str → ℕ → Str
same_path dirfd path flags = path

abbrev no_number : Str → ℤ
no_number text = pos 0

wrappers-Settles_example :
    Settles [] (unlinkat at_fdcwd path_a 0)
    × Settles [] (rmdir path_a)
    × Settles [] (remove path_a)
    × Settles [] (renameat zeros zeros at_fdcwd (some path_a) at_fdcwd (some path_d))
    × Settles [] (rename_path zeros zeros (some path_a) (some path_d))
wrappers-Settles_example = wrappers-Settles zeros zeros at_fdcwd at_fdcwd path_a (some path_d) 0

wrappers-Honest_example :
    Honest none (unlinkat at_fdcwd path_a 0)
    × Honest none (rmdir path_a)
    × Honest none (remove path_a)
    × Honest none (renameat zeros zeros at_fdcwd (some path_a) at_fdcwd (some path_d))
    × Honest none (rename_path zeros zeros (some path_a) (some path_d))
    × Honest none (mkdirat 0o022 at_fdcwd path_a 0o755)
    × Honest none (mknodat zeros 0o022 at_fdcwd path_a 0o755 7)
    × Honest none (mkfifoat 0o022 at_fdcwd path_a 0o755)
    × Honest none (symlinkat [] false path_d at_fdcwd path_a)
    × Honest none (linkat same_path no_number [] at_fdcwd path_a at_fdcwd path_d 0)
wrappers-Honest_example =
    wrappers-Honest zeros zeros 0o022 at_fdcwd at_fdcwd path_a (some path_d) 0o755 7 0 [] false
      path_d same_path no_number

db_mode-fs_mode_example :
    (db_mode (bit_or 0o40000 (fs_mode 0o027 true)) 0o027 ≡ bit_or 0o40000 0o027)
    × (db_mode (bit_or 0o100000 (fs_mode 0o027 false)) 0o027 ≡ bit_or 0o100000 0o027)
    × (db_mode (bit_or 0o010000 (fs_mode 0o027 false)) 0o027 ≡ bit_or 0o010000 0o027)
db_mode-fs_mode_example = db_mode-fs_mode 0o027 (omega arith)

-- A file of mode 027 is made with mode 605.
fs_mode_027 : fs_mode 0o027 false ≡ 0o605
unfolding fs_mode
fs_mode_027 = refl

shared_setxattr-acl_of_example :
    (posix_permissions (acl_of 0o750) ≡ permissions 0o750 0)
    × (shared_setxattr (some path_a) (pos 3) acl_access (acl_of 0o750) 0
        ≡ base_lstat path_a (chmod_known path_a 0o750))
shared_setxattr-acl_of_example = shared_setxattr-acl_of (pos 3) path_a 0o750 0 (omega arith)
