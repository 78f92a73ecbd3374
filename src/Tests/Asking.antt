-- ===== src/Tests/Asking.antt =====
-- Runs of the client's requests: attributes of /j/f, and closefrom.
use pseudo.Prelude.{
  ℕ, ◌≡◌, refl, true, false, none, some, [], ◌∷◌, ◌++◌, Str, NoNul, All, length, ℤ, pos, negsuc,
  int_eq, arith, ◌⊎◌,
}
use pseudo.Message.{Msg, Op, create_xattr, replace_xattr}
use pseudo.Server.Context.{fresh, split_paths}
use pseudo.Server.Handlers.{do_get_xattr}
use pseudo.Client.Descriptors.{Table}
use pseudo.Client.Ignored.{ignore_path_chroot}
use pseudo.Client.Request.{Stat, strip_slash}
use pseudo.Client.Closing.{among, int_lt, closefrom}
use pseudo.Client.Operation.{Client}
use pseudo.Client.Send.{Attempt, no_response, client_op, client_request, received, returns}
use pseudo.Client.Attributes.{attribute}
use pseudo.Client.Stored.{set_message, get_message, stored, getxattr-setxattr}
use pseudo.Client.Spared.{closefrom-spares}
use pseudo.Client.Unsent.{client_op-unsent}
use pseudo.Tests.Engine.{engine}
use pseudo.Tests.Data.{no_files}

abbrev file : Str
file = b'/' ∷ b'j' ∷ b'/' ∷ b'f' ∷ []

abbrev user_x : Str
user_x = b'u' ∷ b'.' ∷ b'x' ∷ []

-- a value with a NUL
abbrev bytes : Str
bytes = 7 ∷ 0 ∷ 9 ∷ []

abbrev status : Stat
status = record { uid = 0; gid = 0; dev = 5; ino = 6; mode = 0o100644; rdev = 0; nlink = 1 }

abbrev client : Client
client = record {
  table = record { fd_paths = []; linked_fd_paths = []; cwd = none };
  chroot = [];
  cwd_rel = none;
  fuid = 0;
  fgid = 0;
  ignored = some (b'/' ∷ b't' ∷ []);
  logging = false;
  local_only = false;
  debug_fd = pos 2;
  prefix_dir_fd = pos 9;
  localstate_dir_fd = pos 10;
  pwd_fd = negsuc 0;
  grp_fd = negsuc 0;
  connect_fd = pos 12;
  pid = 77;
}

abbrev silent : ℕ → Msg → Attempt
silent tries m = no_response

abbrev same : ℤ → ℤ
same fd = fd

not_ignored : ignore_path_chroot client.ignored client.chroot (some file) false ≡ false
unfolding ignore_path_chroot
not_ignored = refl

file_clean : NoNul file
file_clean = (omega arith, (omega arith, (omega arith, (omega arith, tt))))

getxattr-setxattr_example :
    (client_op silent same none
        (attribute Op.set_xattr (negsuc 0) file status user_x (some bytes))
        client
      ≡ received client (
          client_request silent
            (set_message engine no_files client (negsuc 0) file user_x bytes status)))
    × (client_op silent same none (attribute Op.get_xattr (negsuc 0) file status user_x none) client
        ≡ received client (
            client_request silent
              (get_message engine no_files client (negsuc 0) file user_x bytes status)))
    × ((do_get_xattr engine (
          split_paths (
            fresh
              (get_message engine no_files client (negsuc 0) file user_x bytes status)
              (stored engine no_files client (negsuc 0) file user_x bytes status)))).response
        ≡ some bytes)
    × ((do_get_xattr engine (
          split_paths (
            fresh
              (get_message engine no_files client (negsuc 0) file user_x bytes status)
              (stored engine no_files client (negsuc 0) file user_x bytes status)))).response_len
        ≡ length bytes)
unfolding strip_slash
getxattr-setxattr_example =
    getxattr-setxattr engine no_files client (negsuc 0) file user_x bytes status silent same none
      not_ignored refl refl file_clean (omega arith, (omega arith, (omega arith, tt))) (omega arith)
      (omega arith) (omega arith) refl

client_op-unsent_example :
    (client_op silent same none
        (attribute create_xattr (negsuc 0) file status user_x (some bytes))
        client
      ≡ returns client none)
    × (client_op silent same none
          (attribute replace_xattr (negsuc 0) file status user_x (some bytes))
          client
        ≡ returns client none)
client_op-unsent_example =
    client_op-unsent silent same none client (negsuc 0) file user_x (some bytes) status not_ignored

abbrev no_table : Table
no_table = record { fd_paths = []; linked_fd_paths = []; cwd = none }

closefrom-spares_example :
    let own = pos 4 ∷ [] ++ pos 7 ∷ pos 9 ∷ [] in
    let closing = closefrom own (pos 3) no_table in
    (int_lt (pos 7) closing.from ≡ true)
    × All (λ i. int_eq i (pos 7) ≡ false) closing.one_by_one
    × ((among (pos 5) own ≡ true)
        ⊎ ((int_lt (pos 5) (pos 3) ≡ true)
            ⊎ ((int_lt (pos 5) closing.from ≡ false) ⊎ (among (pos 5) closing.one_by_one ≡ true))))
unfolding closefrom
closefrom-spares_example =
    closefrom-spares (pos 4 ∷ []) (pos 9 ∷ []) (pos 7) (pos 5) (pos 3) no_table (λ e. cc)

-- The connection 6 stands right behind the log 5: closefrom closes it.
closefrom_adjacent : (closefrom (pos 5 ∷ pos 6 ∷ []) (pos 3) no_table).from ≡ pos 6
unfolding closefrom
closefrom_adjacent = refl
