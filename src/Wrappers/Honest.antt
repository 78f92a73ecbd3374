-- ===== src/Wrappers/Honest.antt =====
-- What the wrappers tell the server about the file system.
pub mod Removing
pub mod Making
pub mod Opening
use pseudo.Prelude.{
  ℕ, ◌≡◌, refl, ◌⊎◌, inl, inr, Bool, true, false, not, Option, none, some, Str, ℤ, pos, Bool-cases,
  if◌then◌else◌,
}
use pseudo.Message
use pseudo.Message.{Msg, Op}
use pseudo.Client.Request.{Stat, Request}
use pseudo.Wrappers.Calls.{
  RealCall, real_unlinkat, real_rmdir, real_rename, real_renameat, real_mkdirat, real_openat,
  real_mkfifoat, real_symlinkat, real_fchmodat, real_fchmod, real_close, Wrapper, return,
  base_fstatat, base_lstat, base_fstat, real_call, client_op, linked_paths, failed, succeeded,
  op_if, on_path, minus_one, at_fdcwd, filled, refused, at_symlink_nofollow,
}
use pseudo.Wrappers.Remove.{unlinkat, unlink, rmdir, remove, tell_server}
use pseudo.Wrappers.Rename.{
  renameat, rename_path, same_file, linked_buf, rename_marked, take_back, move_entry,
}
use pseudo.Wrappers.Create.{
  mkdirat, mknodat, mkfifoat, symlinkat, made, masked, mkdirat_known, mkfifoat_known,
  symlinkat_known,
}
use pseudo.Wrappers.Modes.{fs_mode}

-- Whether the last call that makes, removes or renames a file succeeded: calls that change a mode or
-- close a descriptor do not count.
abbrev pub outcome : RealCall → ℤ → Option Bool → Option Bool
outcome (real_fchmodat dirfd path mode flags) rc last = last
outcome (real_fchmod fd mode) rc last = last
outcome (real_close fd) rc last = last
outcome call rc last = some (not (failed rc))

abbrev after_success : Option Bool → Bool
after_success none = false
after_success (some b) = b

abbrev after_failure : Option Bool → Bool
after_failure none = false
after_failure (some b) = not b

-- The operations that report a change may only follow a change, and a mark is taken back only after a
-- failure.
abbrev pub permitted : Op → Option Bool → Bool
permitted Message.did_unlink last = after_success last
permitted Message.unlink last = after_success last
permitted Message.link last = after_success last
permitted Message.rename last = after_success last
permitted Message.creat last = after_success last
permitted Message.mkdir last = after_success last
permitted Message.mknod last = after_success last
permitted Message.symlink last = after_success last
permitted Message.open_file last = after_success last
permitted Message.chdir last = after_success last
permitted Message.cancel_unlink last = after_failure last
permitted op last = true

-- A failed call is reported as a failure.
abbrev pub reported : Option Bool → ℤ → Bool
reported none rc = true
reported (some true) rc = true
reported (some false) rc = failed rc

-- On every run only permitted operations are sent, and failure is reported; `last` is the outcome so far.
pub Honest : Option Bool → Wrapper → Type 0
Honest last (return rc) = reported last rc ≡ true
Honest last (base_fstatat dirfd path flags next) = (st : Option Stat) → Honest last (next st)
Honest last (base_lstat path next) = (st : Option Stat) → Honest last (next st)
Honest last (base_fstat fd next) = (st : Option Stat) → Honest last (next st)
Honest last (real_call call next) = (rc : ℤ) → Honest (outcome call rc last) (next rc)
Honest last (linked_paths old new next) = Honest last next
Honest last (client_op request next) =
    (permitted request.op last ≡ true) × ((answer : Option Msg) → Honest last (next answer))

pub branch_lem :
    (b : Bool) (last : Option Bool) (one other : Wrapper)
    → Honest last one
    → Honest last other
    → Honest last (if b then one else other)
branch_lem true last one other x y = x
branch_lem false last one other x y = y

-- The two branches after a real call.
pub after_lem :
    (rc : ℤ) (bad good : Wrapper)
    → (failed rc ≡ true → Honest (some false) bad)
    → Honest (some true) good
    → Honest (some (not (failed rc))) (if failed rc then bad else good)
after_lem rc bad good x y = by_case (failed rc) x
  where
    by_case :
        (b : Bool)
        → (b ≡ true → Honest (some false) bad)
        → Honest (some (not b)) (if b then bad else good)
    by_case true x = x refl
    by_case false x = y

pub told_lem :
    (c b : Bool) (path : Str) (buf : Stat) (rc : ℤ)
    → failed rc ≡ c
    → Honest (some (not c)) (
        op_if b
          (on_path
            (if c then Message.cancel_unlink else Message.did_unlink)
            minus_one
            path
            (some buf))
          (λ _. return rc))
unfolding Honest
told_lem true true path buf rc h = (refl, λ _. h)
told_lem true false path buf rc h = h
told_lem false true path buf rc h = (refl, λ _. refl)
told_lem false false path buf rc h = refl

pub op_if_lem :
    (b : Bool) (last : Option Bool) (request : Request) (rest : Wrapper)
    → permitted request.op last ≡ true
    → Honest last rest
    → Honest last (op_if b request (λ _. rest))
unfolding Honest
op_if_lem true last request rest p h = (p, λ _. h)
op_if_lem false last request rest p h = h
