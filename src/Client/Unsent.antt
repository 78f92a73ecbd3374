-- ===== src/Client/Unsent.antt =====
-- The operations of extended attributes that the client's switch lacks.
use pseudo.Prelude.{ℕ, ◌≡◌, Option, none, some, Str, ℤ, false}
use pseudo.Message.{Msg, create_xattr, replace_xattr}
use pseudo.Client.Ignored.{ignore_path_chroot}
use pseudo.Client.Request.{Stat, known_path, combined}
use pseudo.Client.Operation.{Client, act}
use pseudo.Client.Send.{Attempt, client_op, returns, takes_extra, takes_value, never_ignored}
use pseudo.Client.Attributes.{attribute}

-- For OP_CREATE_XATTR and OP_REPLACE_XATTR, on a path that is not ignored, pseudo_client_op returns a
-- null pointer and leaves the client's state as it is, whatever the connection would answer: the
-- two operations are never sent.
pub client_op-unsent :
    (world : ℕ → Msg → Attempt) (copy : ℤ → ℤ) (cwd : Option Str) (s : Client) (fd : ℤ)
    (path name : Str) (value : Option Str) (buf : Stat)
    → ignore_path_chroot s.ignored s.chroot (some path) false ≡ false
    → (client_op world copy cwd (attribute create_xattr fd path buf name value) s ≡ returns s none)
      × (client_op world copy cwd (attribute replace_xattr fd path buf name value) s
          ≡ returns s none)
unfolding client_op known_path act combined takes_extra takes_value never_ignored
client_op-unsent world copy cwd s fd path name value buf i = (rw i, rw i)
