-- ===== src/Wrappers/Honest/Opening.antt =====
-- The wrappers that open files and change the directory.
use pseudo.Prelude.{
  ℕ, ◌%◌, ◌≡◌, refl, Bool, true, false, not, ◌&&◌, ◌==◌, Option, none, some, Str, ℤ, Bool-cases,
  inl, inr,
}
use pseudo.Client.Request.{Stat, Request}
use pseudo.Wrappers.Calls.{Wrapper, failed}
use pseudo.Wrappers.Create.{masked}
use pseudo.Wrappers.Open.{
  openat, fopen, freopen, opendir, mkostemps, chdir, fchdir, dup, dup2, report_new, openat_known,
  openat_call, openat_ready, fopen_known, is_tmpfile, is_found, mkostemps_known, o_creat,
  o_nonblock,
}
use pseudo.Wrappers.Access.{has}
use pseudo.Wrappers.Honest.{Honest, reported, permitted, branch_lem, after_lem}

reported_lem : (rc : ℤ) → reported (some (not (failed rc))) rc ≡ true
reported_lem rc = elim (Bool-cases (failed rc)) [ inl e ↦ rw e e | inr e ↦ rw e ]

report_new-Honest :
    (existed : Bool) (fd : ℤ) (mode : ℕ) (created : Request) (rest : Wrapper)
    → permitted created.op (some true) ≡ true
    → Honest (some true) rest
    → Honest (some true) (report_new existed fd mode created rest)
unfolding Honest
report_new-Honest true fd mode created rest p h = h
report_new-Honest false fd mode created rest p h = λ _. (p, λ _. h)

openat_known-Honest :
    (dirfd : ℤ) (path : Str) (flags mode : ℕ) (existed : Bool) (rc : ℤ) (st : Option Stat)
    → Honest (some true) (openat_known dirfd path flags mode existed rc st)
unfolding Honest
openat_known-Honest dirfd path flags mode existed rc none = (refl, λ _. refl)
openat_known-Honest dirfd path flags mode existed rc (some st) =
    report_new-Honest existed rc mode _ _ refl (refl, λ _. refl)

openat_call-Honest :
    (dirfd : ℤ) (path : Str) (flags mode : ℕ) (existed : Bool)
    → Honest none (openat_call dirfd path flags mode existed)
unfolding Honest
openat_call-Honest dirfd path flags mode existed = λ rc.
    after_lem rc _ _ (λ h. h)
      (branch_lem (is_tmpfile flags) (some true) _ _ (λ _. refl)
        (openat_known-Honest dirfd path flags mode existed rc))

openat_ready-Honest :
    (dirfd : ℤ) (path : Str) (flags mode : ℕ) (existed : Bool)
    → Honest none (openat_ready dirfd path flags mode existed)
unfolding Honest
openat_ready-Honest dirfd path flags mode existed =
    branch_lem (not (has flags o_nonblock) && not (flags % 4 == 2)) none _ _
      (λ _. openat_call-Honest dirfd path flags mode existed)
      (openat_call-Honest dirfd path flags mode existed)

openat-Honest :
    (umask : ℕ) (dirfd : ℤ) (path : Str) (flags mode : ℕ)
    → Honest none (openat umask dirfd path flags mode)
unfolding Honest openat
openat-Honest umask dirfd path flags mode =
    branch_lem (is_tmpfile flags) none _ _ (openat_ready-Honest dirfd path flags _ false) (
      branch_lem (has flags o_creat) none _ _
        (λ st. openat_ready-Honest dirfd path flags _ (is_found st))
        (openat_ready-Honest dirfd path flags _ true))

fopen_known-Honest :
    (umask : ℕ) (path mode : Str) (existed : Bool) (fd : ℤ) (st : Option Stat)
    → Honest (some true) (fopen_known umask path mode existed fd st)
unfolding Honest
fopen_known-Honest umask path mode existed fd none = (refl, λ _. refl)
fopen_known-Honest umask path mode existed fd (some st) =
    report_new-Honest existed fd (masked umask 0o666) _ _ refl (refl, λ _. refl)

fopen-Honest : (umask : ℕ) (path mode : Str) → Honest none (fopen umask path mode)
unfolding Honest fopen
fopen-Honest umask path mode =
    λ st rc. after_lem rc _ _ (λ h. h) (fopen_known-Honest umask path mode (is_found st) rc)

freopen-Honest : (umask : ℕ) (path mode : Str) → Honest none (freopen umask path mode)
unfolding Honest freopen
freopen-Honest umask path mode =
    λ st rc. after_lem rc _ _ (λ h. h) (fopen_known-Honest umask path mode (is_found st) rc)

opendir-Honest : (path : Str) → Honest none (opendir path)
unfolding Honest opendir
opendir-Honest path = λ rc. after_lem rc _ _ (λ h. h) (λ st. (refl, λ _. refl))

mkostemps_known-Honest :
    (template : Str) (rc : ℤ) (st : Option Stat)
    → Honest (some true) (mkostemps_known template rc st)
unfolding Honest
mkostemps_known-Honest template rc none = (refl, λ _. refl)
mkostemps_known-Honest template rc (some st) = λ _. (refl, λ _. (refl, λ _. refl))

mkostemps-Honest :
    (template : Option (Option Str)) (made : Str) (suffixlen oflags : ℕ)
    → Honest none (mkostemps template made suffixlen oflags)
unfolding Honest mkostemps
mkostemps-Honest none made suffixlen oflags = refl
mkostemps-Honest (some none) made suffixlen oflags = refl
mkostemps-Honest (some (some template)) made suffixlen oflags =
    λ rc. after_lem rc _ _ (λ h. h) (mkostemps_known-Honest made rc)

chdir-Honest : (path : Option Str) → Honest none (chdir path)
unfolding Honest chdir
chdir-Honest none = refl
chdir-Honest (some path) = λ rc. after_lem rc _ _ (λ h. h) (refl, λ _. refl)

fchdir-Honest : (dirfd : ℤ) → Honest none (fchdir dirfd)
unfolding Honest fchdir
fchdir-Honest dirfd = λ rc. after_lem rc _ _ (λ h. h) (refl, λ _. refl)

dup-Honest : (fd : ℤ) → Honest none (dup fd)
unfolding Honest dup
dup-Honest fd = λ rc. (refl, λ _. reported_lem rc)

dup2-Honest : (oldfd newfd : ℤ) → Honest none (dup2 oldfd newfd)
unfolding Honest dup2
dup2-Honest oldfd newfd = (refl, λ _ rc. (refl, λ _. reported_lem rc))

-- On every run of the calls that open a file or directory, change the directory or copy a
-- descriptor, OPEN, CREAT and CHDIR are sent only after the last real call that opens or changes
-- succeeded, and the wrapper returns -1 if that call failed.
pub openers-Honest :
    (umask : ℕ) (dirfd newfd : ℤ) (path mode made : Str) (template : Option (Option Str))
    (flags perms suffixlen : ℕ)
    → Honest none (openat umask dirfd path flags perms)
      × Honest none (fopen umask path mode)
      × Honest none (freopen umask path mode)
      × Honest none (opendir path)
      × Honest none (mkostemps template made suffixlen flags)
      × Honest none (chdir (some path))
      × Honest none (fchdir dirfd)
      × Honest none (dup dirfd)
      × Honest none (dup2 dirfd newfd)
openers-Honest umask dirfd newfd path mode made template flags perms suffixlen = (
  openat-Honest umask dirfd path flags perms,
  fopen-Honest umask path mode,
  freopen-Honest umask path mode,
  opendir-Honest path,
  mkostemps-Honest template made suffixlen flags,
  chdir-Honest (some path),
  fchdir-Honest dirfd,
  dup-Honest dirfd,
  dup2-Honest dirfd newfd,
)
