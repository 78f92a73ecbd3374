-- ===== src/Wrappers/Honest/Removing.antt =====
-- The wrappers that remove and rename.
use pseudo.Prelude.{
  ℕ, ◌≡◌, refl, inl, inr, true, false, not, Option, none, some, Str, ℤ, Bool-cases, if◌then◌else◌,
}
use pseudo.Message
use pseudo.Message.{Msg, Op}
use pseudo.Client.Request.{Stat}
use pseudo.Wrappers.Calls.{
  real_rename, real_renameat, return, real_call, failed, succeeded, minus_one, at_fdcwd,
}
use pseudo.Wrappers.Remove.{unlinkat, unlink, rmdir, remove}
use pseudo.Wrappers.Rename.{renameat, rename_path, same_file, rename_marked, take_back, move_entry}
use pseudo.Wrappers.Honest.{Honest, reported, branch_lem, after_lem, told_lem, op_if_lem}

pub unlinkat-Honest :
    (dirfd : ℤ) (path : Str) (rflags : ℕ) → Honest none (unlinkat dirfd path rflags)
unfolding Honest unlinkat
unlinkat-Honest dirfd path rflags none = refl
unlinkat-Honest dirfd path rflags (some buf) =
    (refl, λ msg rc. told_lem (failed rc) (succeeded msg) path buf rc refl)

pub rmdir-Honest : (path : Str) → Honest none (rmdir path)
unfolding Honest rmdir
rmdir-Honest path none = refl
rmdir-Honest path (some buf) =
    (refl, λ msg rc. told_lem (failed rc) (succeeded msg) path buf rc refl)

pub remove-Honest : (path : Str) → Honest none (remove path)
unfolding Honest remove unlink
remove-Honest path none = refl
remove-Honest path (some buf) =
    branch_lem (Message.is_dir buf.mode) none (rmdir path) (unlink path) (rmdir-Honest path)
      (unlinkat-Honest at_fdcwd path 0)

itself : (rc : ℤ) → reported (some (not (failed rc))) rc ≡ true
itself rc = elim (Bool-cases (failed rc)) [ inl e ↦ rw (e, e) | inr e ↦ rw e ]

rename_end-Honest :
    (oldbuf newbuf : Stat) (olddir : ℤ) (oldpath : Str) (newdir : ℤ) (newpath : Str)
    (old new : Option Stat) (marked_new marked_old entry : Option Msg) (rc : ℤ)
    → Honest (some (not (failed rc))) (
        if failed rc
        then take_back oldbuf newbuf olddir oldpath newdir newpath old new marked_new marked_old
            (return rc)
        else move_entry oldbuf newbuf olddir oldpath newdir newpath old new marked_new entry
            (return rc))
unfolding Honest
rename_end-Honest oldbuf newbuf olddir oldpath newdir newpath old new marked_new marked_old entry
      rc =
    after_lem rc _ _
      (λ h.
        op_if_lem (succeeded marked_new) (some false) _ _ refl
          (op_if_lem (succeeded marked_old) (some false) _ _ refl h))
      (op_if_lem (succeeded marked_new) (some true) _ _ refl
        (op_if_lem (not (succeeded entry)) (some true) _ _ refl (refl, λ _. refl)))

pub renameat-Honest :
    (oldbuf newbuf : Stat) (olddirfd : ℤ) (oldpath : Option Str) (newdirfd : ℤ)
    (newpath : Option Str)
    → Honest none (renameat oldbuf newbuf olddirfd oldpath newdirfd newpath)
unfolding Honest renameat
renameat-Honest oldbuf newbuf olddirfd none newdirfd newpath = refl
renameat-Honest oldbuf newbuf olddirfd (some oldpath) newdirfd none = refl
renameat-Honest oldbuf newbuf olddirfd (some oldpath) newdirfd (some newpath) = λ old new.
    branch_lem (same_file old new) none
      (real_call (real_renameat olddirfd oldpath newdirfd newpath) return)
      (rename_marked oldbuf newbuf (real_renameat olddirfd oldpath newdirfd newpath) olddirfd
        oldpath newdirfd newpath old new)
      itself
      (
        refl,
        λ marked_new. (
          refl,
          λ marked_old. (
            refl,
            λ entry.
                rename_end-Honest oldbuf newbuf olddirfd oldpath newdirfd newpath old new marked_new
                  marked_old entry,
          ),
        ),
      )

pub rename_path-Honest :
    (oldbuf newbuf : Stat) (oldpath newpath : Option Str)
    → Honest none (rename_path oldbuf newbuf oldpath newpath)
unfolding Honest rename_path
rename_path-Honest oldbuf newbuf none newpath = refl
rename_path-Honest oldbuf newbuf (some oldpath) none = refl
rename_path-Honest oldbuf newbuf (some oldpath) (some newpath) = λ new old.
    branch_lem (same_file old new) none (real_call (real_rename oldpath newpath) return)
      (rename_marked oldbuf newbuf (real_rename oldpath newpath) minus_one oldpath minus_one newpath
        old new)
      itself
      (
        refl,
        λ marked_new. (
          refl,
          λ marked_old. (
            refl,
            λ entry.
                rename_end-Honest oldbuf newbuf minus_one oldpath minus_one newpath old new
                  marked_new marked_old entry,
          ),
        ),
      )
