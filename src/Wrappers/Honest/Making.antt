-- ===== src/Wrappers/Honest/Making.antt =====
-- The wrappers that make files, and all of them together.
use pseudo.Prelude.{
  ℕ, ◌≡◌, refl, Bool, true, false, not, Option, none, some, Str, ℤ, ◌&&◌, is_prefix, drop,
}
use pseudo.Message.{Msg}
use pseudo.Client.Request.{Stat}
use pseudo.Wrappers.Calls.{failed, minus_one, refused, succeeded}
use pseudo.Wrappers.Remove.{unlinkat, rmdir, remove}
use pseudo.Wrappers.Rename.{renameat, rename_path}
use pseudo.Wrappers.Create.{
  mkdirat, mknodat, mkfifoat, symlinkat, made, masked, mkdirat_known, mkfifoat_known,
  symlinkat_known,
}
use pseudo.Wrappers.Link.{linkat, link_known, tmpfile_known, without_root, proc_self_fd, follows}
use pseudo.Wrappers.Honest.{Honest, reported, branch_lem, after_lem}
use pseudo.Wrappers.Honest.Removing.{
  unlinkat-Honest, rmdir-Honest, remove-Honest, renameat-Honest, rename_path-Honest,
}

mkdirat-Honest :
    (umask : ℕ) (dirfd : ℤ) (path : Str) (mode : ℕ) → Honest none (mkdirat umask dirfd path mode)
unfolding Honest mkdirat
mkdirat-Honest umask dirfd path mode = λ rc. after_lem rc _ _ (λ h. h) (known rc)
  where
    known :
        (rc : ℤ) (st : Option Stat)
        → Honest (some true) (mkdirat_known dirfd path (masked umask mode) rc st)
    known rc none = refl
    known rc (some st) = (refl, λ _ _. refl)

last_lem : (b : Bool) → reported (some (not b)) minus_one ≡ true
last_lem true = refl
last_lem false = refl

made-Honest : (dirfd : ℤ) (path : Str) (msg : Option Msg) → Honest (some true) (made dirfd path msg)
unfolding Honest
made-Honest dirfd path msg =
    branch_lem (refused msg) (some true) _ _ (λ rc. last_lem (failed rc)) refl

mknodat-Honest :
    (buf : Stat) (umask : ℕ) (dirfd : ℤ) (path : Str) (mode dev : ℕ)
    → Honest none (mknodat buf umask dirfd path mode dev)
unfolding Honest mknodat
mknodat-Honest buf umask dirfd path mode dev (some st) = refl
mknodat-Honest buf umask dirfd path mode dev none =
    λ fd. after_lem fd _ _ (λ _. refl) (λ _ st _. (refl, made-Honest dirfd path))

mkfifoat-Honest :
    (umask : ℕ) (dirfd : ℤ) (path : Str) (mode : ℕ) → Honest none (mkfifoat umask dirfd path mode)
unfolding Honest mkfifoat
mkfifoat-Honest umask dirfd path mode (some st) = refl
mkfifoat-Honest umask dirfd path mode none = λ rc. after_lem rc _ _ (λ _. refl) known
  where
    known :
        (st : Option Stat) → Honest (some true) (mkfifoat_known dirfd path (masked umask mode) st)
    known none = λ _ rc. last_lem (failed rc)
    known (some st) = λ _. (refl, made-Honest dirfd path)

symlinkat-Honest :
    (chroot : Str) (nosymlinkexp : Bool) (oldname : Str) (dirfd : ℤ) (newpath : Str)
    → Honest none (symlinkat chroot nosymlinkexp oldname dirfd newpath)
unfolding Honest symlinkat
symlinkat-Honest chroot nosymlinkexp oldname dirfd newpath = λ rc. after_lem rc _ _ (λ h. h) known
  where
    known : (st : Option Stat) → Honest (some true) (symlinkat_known dirfd newpath st)
    known none = refl
    known (some st) = (refl, λ _. refl)

link_known-Honest :
    (oldpath newpath : Str) (rc : ℤ) (st : Option Stat)
    → Honest (some true) (link_known oldpath newpath rc st)
unfolding Honest
link_known-Honest oldpath newpath rc none = refl
link_known-Honest oldpath newpath rc (some buf) = (refl, λ msg. (refl, λ _. refl))

tmpfile_known-Honest :
    (fd : ℤ) (oldpath newpath : Str) (rc : ℤ) (st : Option Stat)
    → Honest (some true) (tmpfile_known fd oldpath newpath rc st)
unfolding Honest
tmpfile_known-Honest fd oldpath newpath rc none = refl
tmpfile_known-Honest fd oldpath newpath rc (some buf) = (
  refl,
  λ msg.
      branch_lem (succeeded msg) (some true) _ _ (refl, λ _. refl) (refl, λ _. (refl, λ _. refl)),
)

linkat-Honest :
    (root_path : ℤ → Str → ℕ → Str) (atoi : Str → ℤ) (chroot : Str) (olddirfd : ℤ) (oldname : Str)
    (newdirfd : ℤ) (newname : Str) (flags : ℕ)
    → Honest none (linkat root_path atoi chroot olddirfd oldname newdirfd newname flags)
unfolding Honest linkat
linkat-Honest root_path atoi chroot olddirfd oldname newdirfd newname flags =
    branch_lem (is_prefix proc_self_fd (without_root chroot oldname) && follows flags) none _ _
      (λ rc.
        after_lem rc _ _ (λ h. h)
          (branch_lem (failed (atoi (drop 14 (without_root chroot oldname)))) (some true) _ _
            (link_known-Honest _ _ rc)
            (tmpfile_known-Honest (atoi (drop 14 (without_root chroot oldname))) _ _ rc)))
      (λ rc. after_lem rc _ _ (λ h. h) (link_known-Honest _ _ rc))

-- On every run of the calls that remove, rename, make or link a file, DID_UNLINK, LINK, RENAME,
-- CREAT, MKDIR, MKNOD and SYMLINK are sent only after the real call succeeded and CANCEL_UNLINK
-- only after it failed, and the wrapper returns -1 if the last such real call failed.
pub wrappers-Honest :
    (buf newbuf : Stat) (umask : ℕ) (dirfd newdirfd : ℤ) (path : Str) (newpath : Option Str)
    (mode dev flags : ℕ) (chroot : Str) (nosymlinkexp : Bool) (target : Str)
    (root_path : ℤ → Str → ℕ → Str) (atoi : Str → ℤ)
    → Honest none (unlinkat dirfd path flags)
      × Honest none (rmdir path)
      × Honest none (remove path)
      × Honest none (renameat buf newbuf dirfd (some path) newdirfd newpath)
      × Honest none (rename_path buf newbuf (some path) newpath)
      × Honest none (mkdirat umask dirfd path mode)
      × Honest none (mknodat buf umask dirfd path mode dev)
      × Honest none (mkfifoat umask dirfd path mode)
      × Honest none (symlinkat chroot nosymlinkexp target dirfd path)
      × Honest none (linkat root_path atoi chroot dirfd path newdirfd target flags)
wrappers-Honest buf newbuf umask dirfd newdirfd path newpath mode dev flags chroot nosymlinkexp
      target root_path atoi =
    (
      unlinkat-Honest dirfd path flags,
      rmdir-Honest path,
      remove-Honest path,
      renameat-Honest buf newbuf dirfd (some path) newdirfd newpath,
      rename_path-Honest buf newbuf (some path) newpath,
      mkdirat-Honest umask dirfd path mode,
      mknodat-Honest buf umask dirfd path mode dev,
      mkfifoat-Honest umask dirfd path mode,
      symlinkat-Honest chroot nosymlinkexp target dirfd path,
      linkat-Honest root_path atoi chroot dirfd path newdirfd target flags,
    )
