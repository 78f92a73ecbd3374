-- ===== src/Wrappers/Settled.antt =====
-- The marks that the removing and renaming wrappers leave in the server.
use pseudo.Prelude.{
  ℕ, ◌≡◌, refl, inl, inr, Bool, true, false, not, Option, none, some, List, [], ◌∷◌, Str, ℤ, str_eq,
  str_eq_refl, Bool-cases, if◌then◌else◌,
}
use pseudo.Message
use pseudo.Message.{Msg, Op}
use pseudo.Client.Request.{Stat, Request}
use pseudo.Wrappers.Calls.{
  RealCall, Wrapper, return, base_fstatat, base_lstat, base_fstat, real_call, client_op,
  linked_paths, failed, succeeded, op_if, on_path, minus_one, at_fdcwd, filled,
}
use pseudo.Wrappers.Remove.{unlinkat, unlink, rmdir, remove}
use pseudo.Wrappers.Rename.{
  renameat, rename_path, same_file, linked_buf, rename_marked, rename_known, rename_request,
}

abbrev pub forget : Str → List Str → List Str
forget path [] = []
forget path (p ∷ ps) = if str_eq p path then forget path ps else p ∷ forget path ps

abbrev pub forget_path : Option Str → List Str → List Str
forget_path none marked = marked
forget_path (some path) marked = forget path marked

abbrev pub mark : Bool → Option Str → List Str → List Str
mark b none marked = marked
mark false (some path) marked = marked
mark true (some path) marked = path ∷ marked

-- The marked paths after a request: MAY_UNLINK marks a path if it succeeds, CANCEL_UNLINK and
-- DID_UNLINK settle it, and RENAME moves the old path's entry.
abbrev pub marks : Op → Request → Option Msg → List Str → List Str
marks Message.may_unlink request answer marked = mark (succeeded answer) request.path marked
marks Message.did_unlink request answer marked = forget_path request.path marked
marks Message.cancel_unlink request answer marked = forget_path request.path marked
marks Message.rename request answer marked = forget_path request.extra marked
marks op request answer marked = marked

-- On every run, whatever the file system and the server answer, no mark is left when the wrapper
-- returns; `marked` holds the marks that are set so far.
pub Settles : List Str → Wrapper → Type 0
Settles marked (return rc) = marked ≡ []
Settles marked (base_fstatat dirfd path flags next) = (st : Option Stat) → Settles marked (next st)
Settles marked (base_lstat path next) = (st : Option Stat) → Settles marked (next st)
Settles marked (base_fstat fd next) = (st : Option Stat) → Settles marked (next st)
Settles marked (real_call call next) = (rc : ℤ) → Settles marked (next rc)
Settles marked (linked_paths old new next) = Settles marked next
Settles marked (client_op request next) =
    (answer : Option Msg) → Settles (marks request.op request answer marked) (next answer)

forget_one : (path : Str) → forget path (path ∷ []) ≡ []
forget_one path = rw (str_eq_refl path)

forget_two : (old new : Str) → forget old (forget new (old ∷ new ∷ [])) ≡ []
forget_two old new = elim (Bool-cases (str_eq old new)) [
  | inl e ↦ rw (str_eq_refl new, e)
  | inr e ↦ rw (str_eq_refl new, e, str_eq_refl old)
]

choice_lem :
    (b : Bool) (marked : List Str) (one other : Wrapper)
    → Settles marked one
    → Settles marked other
    → Settles marked (if b then one else other)
choice_lem true marked one other x y = x
choice_lem false marked one other x y = y

settle_lem :
    (b c : Bool) (path : Str) (buf : Stat) (rc : ℤ)
    → Settles (mark b (some path) []) (
        op_if b
          (on_path
            (if c then Message.cancel_unlink else Message.did_unlink)
            minus_one
            path
            (some buf))
          (λ _. return rc))
unfolding Settles
settle_lem true true path buf rc = λ _. forget_one path
settle_lem true false path buf rc = λ _. forget_one path
settle_lem false c path buf rc = refl

unlinkat-Settles : (dirfd : ℤ) (path : Str) (rflags : ℕ) → Settles [] (unlinkat dirfd path rflags)
unfolding Settles unlinkat
unlinkat-Settles dirfd path rflags none = refl
unlinkat-Settles dirfd path rflags (some buf) =
    λ msg rc. settle_lem (succeeded msg) (failed rc) path buf rc

rmdir-Settles : (path : Str) → Settles [] (rmdir path)
unfolding Settles rmdir
rmdir-Settles path none = refl
rmdir-Settles path (some buf) = λ msg rc. settle_lem (succeeded msg) (failed rc) path buf rc

abbrev marked_by : Bool → Bool → Str → Str → List Str
marked_by new_marked old_marked oldpath newpath =
    mark old_marked (some oldpath) (mark new_marked (some newpath) [])

forget_old : (n : Bool) (old new : Str) → forget old (forget new (marked_by n true old new)) ≡ []
forget_old true old new = forget_two old new
forget_old false old new = elim (Bool-cases (str_eq old new)) [
  | inl e ↦ rw e
  | inr e ↦ rw (e, str_eq_refl old)
]

take_back_lem :
    (n o : Bool) (olddir : ℤ) (old : Str) (newdir : ℤ) (new : Str) (oldbuf newbuf : Option Stat)
    (rc : ℤ)
    → Settles (marked_by n o old new) (
        op_if n
          (on_path Message.cancel_unlink newdir new newbuf)
          (λ _. op_if o (on_path Message.cancel_unlink olddir old oldbuf) (λ _. return rc)))
unfolding Settles
take_back_lem true true olddir old newdir new oldbuf newbuf rc = λ _ _. forget_two old new
take_back_lem true false olddir old newdir new oldbuf newbuf rc = λ _. forget_one new
take_back_lem false true olddir old newdir new oldbuf newbuf rc = λ _. forget_one old
take_back_lem false false olddir old newdir new oldbuf newbuf rc = refl

link_lem :
    (b : Bool) (marked : List Str) (dir : ℤ) (path : Str) (buf : Option Stat) (rest : Wrapper)
    → Settles marked rest
    → Settles marked (op_if b (on_path Message.link dir path buf) (λ _. rest))
unfolding Settles
link_lem true marked dir path buf rest h = λ _. h
link_lem false marked dir path buf rest h = h

move_lem :
    (n o b : Bool) (olddir : ℤ) (old : Str) (newdir : ℤ) (new : Str) (buf : Stat)
    (newbuf : Option Stat) (rc : ℤ)
    → Settles (marked_by n o old new) (
        op_if n (on_path Message.did_unlink newdir new newbuf) (λ _.
          op_if b
            (on_path Message.link olddir old (some buf))
            (λ _. client_op (rename_request olddir newdir new buf old) (λ _. return rc))))
unfolding Settles
move_lem true true b olddir old newdir new buf newbuf rc =
    λ _. link_lem b _ olddir old (some buf) _ (λ _. forget_two old new)
move_lem true false b olddir old newdir new buf newbuf rc =
    λ _. link_lem b _ olddir old (some buf) _ (λ _. rw (forget_one new))
move_lem false true b olddir old newdir new buf newbuf rc =
    link_lem b _ olddir old (some buf) _ (λ _. forget_one old)
move_lem false false b olddir old newdir new buf newbuf rc =
    link_lem b _ olddir old (some buf) _ (λ _. refl)

rename_marked-Settles :
    (oldbuf newbuf : Stat) (call : RealCall) (olddir : ℤ) (oldpath : Str) (newdir : ℤ)
    (newpath : Str) (old new : Option Stat)
    → Settles [] (rename_marked oldbuf newbuf call olddir oldpath newdir newpath old new)
unfolding Settles
rename_marked-Settles oldbuf newbuf call olddir oldpath newdir newpath old new =
    λ marked_new marked_old entry rc.
      choice_lem (failed rc) _ _ _
        (take_back_lem (succeeded marked_new) (succeeded marked_old) olddir oldpath newdir newpath
          (some (filled oldbuf old)) (some (filled newbuf new)) rc)
        (move_lem (succeeded marked_new) (succeeded marked_old) (not (succeeded entry)) olddir
          oldpath newdir newpath
          (if succeeded entry then filled oldbuf old else linked_buf (filled oldbuf old) new)
          (some (filled newbuf new)) rc)

rename_known-Settles :
    (oldbuf newbuf : Stat) (call : RealCall) (olddir : ℤ) (oldpath : Str) (newdir : ℤ)
    (newpath : Str) (old new : Option Stat)
    → Settles [] (rename_known oldbuf newbuf call olddir oldpath newdir newpath old new)
unfolding Settles
rename_known-Settles oldbuf newbuf call olddir oldpath newdir newpath old new =
    choice_lem (same_file old new) [] (real_call call return) _ (λ rc. refl)
      (rename_marked-Settles oldbuf newbuf call olddir oldpath newdir newpath old new)

renameat-Settles :
    (oldbuf newbuf : Stat) (olddirfd : ℤ) (oldpath : Option Str) (newdirfd : ℤ)
    (newpath : Option Str)
    → Settles [] (renameat oldbuf newbuf olddirfd oldpath newdirfd newpath)
unfolding Settles renameat
renameat-Settles oldbuf newbuf olddirfd none newdirfd newpath = refl
renameat-Settles oldbuf newbuf olddirfd (some oldpath) newdirfd none = refl
renameat-Settles oldbuf newbuf olddirfd (some oldpath) newdirfd (some newpath) =
    λ old new. rename_known-Settles oldbuf newbuf _ olddirfd oldpath newdirfd newpath old new

rename_path-Settles :
    (oldbuf newbuf : Stat) (oldpath newpath : Option Str)
    → Settles [] (rename_path oldbuf newbuf oldpath newpath)
unfolding Settles rename_path
rename_path-Settles oldbuf newbuf none newpath = refl
rename_path-Settles oldbuf newbuf (some oldpath) none = refl
rename_path-Settles oldbuf newbuf (some oldpath) (some newpath) =
    λ new old. rename_known-Settles oldbuf newbuf _ minus_one oldpath minus_one newpath old new

remove-Settles : (path : Str) → Settles [] (remove path)
unfolding Settles remove unlink
remove-Settles path none = refl
remove-Settles path (some buf) =
    choice_lem (Message.is_dir buf.mode) [] (rmdir path) (unlink path) (rmdir-Settles path)
      (unlinkat-Settles at_fdcwd path 0)

-- Whatever the file system and the server answer, each path that the server marked by a successful
-- MAY_UNLINK of unlinkat, rmdir, remove, renameat or rename is settled before the call returns: by
-- CANCEL_UNLINK, by DID_UNLINK, or for an old path by RENAME.
pub wrappers-Settles :
    (oldbuf newbuf : Stat) (dirfd newdirfd : ℤ) (path : Str) (newpath : Option Str) (rflags : ℕ)
    → Settles [] (unlinkat dirfd path rflags)
      × Settles [] (rmdir path)
      × Settles [] (remove path)
      × Settles [] (renameat oldbuf newbuf dirfd (some path) newdirfd newpath)
      × Settles [] (rename_path oldbuf newbuf (some path) newpath)
wrappers-Settles oldbuf newbuf dirfd newdirfd path newpath rflags = (
  unlinkat-Settles dirfd path rflags,
  rmdir-Settles path,
  remove-Settles path,
  renameat-Settles oldbuf newbuf dirfd (some path) newdirfd newpath,
  rename_path-Settles oldbuf newbuf (some path) newpath,
)
