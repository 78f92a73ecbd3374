-- ===== src/Message.antt =====
-- The messages between client and server: `pseudo_msg_t` of pseudo_ipc.h, and the enumerations
-- that maketables generates from enums/*.in. An integer field is its bit pattern. `path` is the
-- buffer behind the header, with whatever NUL bytes it holds.
use pseudo.Prelude.{ℕ, ◌+◌, ◌-◌, ◌%◌, ◌^◌, ◌≡◌, ap, Bool, Str, ◌==◌, arith}

pub data MsgType : Type 0 where
  ping shutdown op ack nak fastop : MsgType

pub data Op : Type 0 where
  chdir chmod chown chroot close creat dup fchmod fchown fstat link mkdir mknod open_file rename :
      Op
  stat unlink symlink exec may_unlink did_unlink cancel_unlink : Op
  get_xattr list_xattr remove_xattr set_xattr create_xattr replace_xattr closefrom unknown_op : Op

-- `result_none` is RESULT_NONE, the zero value of the generated enumeration.
pub data Res : Type 0 where
  result_none succeed fail error abort : Res

pub record Msg : Type 0 where
  pub type : MsgType
  pub op : Op
  pub result : Res
  pub access : ℕ
  pub client : ℕ
  pub fd : ℕ
  pub dev : ℕ
  pub ino : ℕ
  pub uid : ℕ
  pub gid : ℕ
  pub mode : ℕ
  pub rdev : ℕ
  pub pathlen : ℕ
  pub nlink : ℕ
  pub deleting : ℕ
  pub path : Str

-- `*msg = header`: a structure assignment copies every field but the flexible `path`.
abbrev pub assign : Msg → Msg → Msg
assign m h = record h { path = m.path }

-- S_IFMT and the file types of a mode
abbrev pub file_type : ℕ → ℕ
file_type mode = mode % 2 ^ 16 - mode % 2 ^ 12

abbrev pub s_ifdir : ℕ
s_ifdir = 0o40000

abbrev pub s_iflnk : ℕ
s_iflnk = 0o120000

abbrev pub is_dir : ℕ → Bool
is_dir mode = file_type mode == s_ifdir

abbrev pub is_lnk : ℕ → Bool
is_lnk mode = file_type mode == s_iflnk

-- mode & 07777, and mode & ~07777
abbrev pub perm_bits : ℕ → ℕ
perm_bits mode = mode % 2 ^ 12

abbrev pub type_bits : ℕ → ℕ
type_bits mode = mode - mode % 2 ^ 12

-- (new & 07777) | (old & ~07777); the two parts have no bit in common.
unfoldable pub merge_mode : ℕ → ℕ → ℕ
merge_mode new old = perm_bits new + type_bits old

-- The permissions come from the new mode, and the other bits, so the file type, from the old one.
pub merge_mode_parts :
    (new old : ℕ)
    → (perm_bits (merge_mode new old) ≡ perm_bits new)
      × (type_bits (merge_mode new old) ≡ type_bits old)
      × (is_dir (merge_mode new old) ≡ is_dir old)
      × (is_lnk (merge_mode new old) ≡ is_lnk old)
unfolding merge_mode
merge_mode_parts new old =
    (omega arith, omega arith, ap (λ t. t == s_ifdir) same, ap (λ t. t == s_iflnk) same)
  where
    same : file_type (merge_mode new old) ≡ file_type old
    same = omega arith
