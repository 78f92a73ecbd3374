-- ===== src/Client/Operation.antt =====
-- pseudo_client_op of pseudo_client.c: what the client does by itself for an operation, and the message
-- that it sends. PSEUDO_XATTRDB and PSEUDO_PROFILING are not defined, and malloc does not fail.
use pseudo.Prelude.{
  ℕ, ◌-◌, ◌%◌, ◌^◌, Bool, true, false, ◌&&◌, Option, none, some, List, [], ◌∷◌, Str, length,
  get_elem?, ◌==◌, str_eq, is_prefix, drop, ℤ, pos, negsuc, int_eq, if◌then◌else◌,
}
use pseudo.Message.{Msg, Op}
use pseudo.Client.Descriptors.{
  Table, fd_path, client_path, client_unlinked_path, client_rename_path, client_close,
}
use pseudo.Client.Request.{Request}
use pseudo.Client.Closing.{closefrom, Closed}

-- The library's global variables: what it remembers of descriptors, pseudo_chroot (empty where there is
-- none), pseudo_cwd_rel, the magic user and group, PSEUDO_IGNORE_PATHS, the switches, its own
-- descriptors, and the process.
pub record Client : Type 0 where
  pub table : Table
  pub chroot : Str
  pub cwd_rel : Option Str
  pub fuid : ℕ
  pub fgid : ℕ
  pub ignored : Option Str
  pub logging : Bool
  pub local_only : Bool
  pub debug_fd : ℤ
  pub prefix_dir_fd : ℤ
  pub localstate_dir_fd : ℤ
  pub pwd_fd : ℤ
  pub grp_fd : ℤ
  pub connect_fd : ℤ
  pub pid : ℕ

-- An `int` as its 32 bits.
abbrev pub bits : ℤ → ℕ
bits (pos n) = n % 2 ^ 32
bits (negsuc n) = 2 ^ 32 - 1 - n % 2 ^ 32

-- pseudo_client_chroot
abbrev pub client_chroot : Str → Client → Client
client_chroot path s = record s { chroot = (if str_eq path (b'/' ∷ []) then [] else path) }

abbrev at_boundary : Option ℕ → Bool
at_boundary none = true
at_boundary (some c) = c == b'/'

-- What pseudo_cwd_rel points at: the working directory below the changed root, if it is in it.
abbrev pub relative_to : Str → Str → Str
relative_to [] cwd = cwd
relative_to (c ∷ cs) cwd =
    if is_prefix (c ∷ cs) cwd && at_boundary (get_elem? cwd (length (c ∷ cs)))
    then drop (length (c ∷ cs)) cwd
    else cwd

-- pseudo_client_getcwd, where getcwd gives `cwd`
abbrev pub client_getcwd : Option Str → Client → Client
client_getcwd none s = s
client_getcwd (some cwd) s = record s {
  table = record s.table { cwd = some cwd };
  cwd_rel = some (relative_to s.chroot cwd);
}

-- The client moves a descriptor of its own that the program closes; `copy` gives the descriptor that
-- pseudo_fd makes.
unfoldable pub move_own : (ℤ → ℤ) → ℤ → Client → Client
move_own copy (negsuc n) s = s
move_own copy (pos n) s =
    let fd = pos n in
    if int_eq fd s.connect_fd
    then record s { connect_fd = copy fd }
    else if int_eq fd s.debug_fd
    then record s { debug_fd = copy fd }
    else if int_eq fd s.prefix_dir_fd
    then record s { prefix_dir_fd = copy fd }
    else if int_eq fd s.localstate_dir_fd
    then record s { localstate_dir_fd = copy fd }
    else if int_eq fd s.pwd_fd
    then record s { pwd_fd = copy fd }
    else if int_eq fd s.grp_fd
    then record s { grp_fd = copy fd }
    else s

abbrev pub own_descriptors : Client → List ℤ
own_descriptors s = s.debug_fd ∷ s.localstate_dir_fd ∷ s.pwd_fd ∷ s.grp_fd ∷ s.connect_fd ∷ []

abbrev pub with_table : Client → Table → Client
with_table s t = record s { table = t }

-- The state after the switch, the message, whether it is to be sent, and an answer without the server.
pub record Step : Type 0 where
  pub client : Client
  pub msg : Msg
  pub do_request : Bool
  pub answer : Option Msg

abbrev step : Client → Msg → Bool → Step
step s m b = record { client = s; msg = m; do_request = b; answer = none }

abbrev close_step : Closed → Client → Msg → Step
close_step closed s m =
    let m' = record m { fd = bits closed.from } in
    record { client = with_table s closed.table; msg = m'; do_request = false; answer = some m' }

abbrev magic_owner : Client → Msg → Msg
magic_owner s m = record m { uid = s.fuid; gid = s.fgid }

abbrev text : Option Str → Str
text none = []
text (some s) = s

-- The switch, with the path after its slash was stripped. `cwd` is what getcwd gives.
unfoldable pub act : (ℤ → ℤ) → Option Str → Request → Str → Op → Client → Msg → Step
act copy cwd r path Op.chdir s m = step (client_getcwd cwd s) m false
act copy cwd r path Op.chroot s m = record {
  client = client_chroot path s;
  msg = m;
  do_request = false;
  answer = some m;
}
act copy cwd r path Op.open_file s m =
    step (with_table s (client_path r.fd (some path) s.table)) m s.logging
act copy cwd r path Op.exec s m = step s m s.logging
act copy cwd r path Op.closefrom s m = close_step (closefrom (own_descriptors s) r.fd s.table) s m
act copy cwd r path Op.close s m =
    step (with_table (move_own copy r.fd s) (client_close r.fd s.table)) m false
act copy cwd r path Op.dup s m =
    step (with_table s (client_path r.dirfd (fd_path r.fd s.table) s.table)) m false
act copy cwd r path Op.unlink s m = step (with_table s (client_unlinked_path path s.table)) m true
act copy cwd r path Op.did_unlink s m =
    step (with_table s (client_unlinked_path path s.table)) m true
act copy cwd r path Op.chmod s m = step s (magic_owner s m) true
act copy cwd r path Op.creat s m = step s (magic_owner s m) true
act copy cwd r path Op.fchmod s m = step s (magic_owner s m) true
act copy cwd r path Op.mkdir s m = step s (magic_owner s m) true
act copy cwd r path Op.mknod s m = step s (magic_owner s m) true
act copy cwd r path Op.symlink s m = step s (magic_owner s m) true
act copy cwd r path Op.rename s m =
    step (with_table s (client_rename_path (text r.extra) path s.table)) m true
act copy cwd r path Op.create_xattr s m = step s m false
act copy cwd r path Op.replace_xattr s m = step s m false
act copy cwd r path Op.unknown_op s m = step s m false
act copy cwd r path _ s m = step s m true
