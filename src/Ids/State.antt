-- ===== src/Ids/State.antt =====
-- The pseudo_ruid to pseudo_fgid of pseudo_client.c, with pseudo_client_touchuid and
-- pseudo_client_touchgid, which note them in the variables that a child is given.
use pseudo.Prelude.{ℕ, ◌^◌, ◌-◌, Option, some, [], ◌∷◌, Str, take}
use pseudo.Db.Column.{as_int}
use pseudo.Values.{Variables, set_value}
use pseudo.Ids.Decimal.{print_four}

-- Four uids or four gids; an id is a number below 2^32.
pub record Ids : Type 0 where
  pub real : ℕ
  pub effective : ℕ
  pub saved : ℕ
  pub fs : ℕ

pub record Process : Type 0 where
  pub uids : Ids
  pub gids : Ids
  pub vars : Variables

-- (uid_t) -1
abbrev pub no_id : ℕ
no_id = 2 ^ 32 - 1

abbrev pub pseudo_uids : Str
pseudo_uids = b'P' ∷ b'S' ∷ b'E' ∷ b'U' ∷ b'D' ∷ b'O' ∷ b'_' ∷ b'U' ∷ b'I' ∷ b'D' ∷ b'S' ∷ []

abbrev pub pseudo_gids : Str
pseudo_gids = b'P' ∷ b'S' ∷ b'E' ∷ b'U' ∷ b'D' ∷ b'O' ∷ b'_' ∷ b'G' ∷ b'I' ∷ b'D' ∷ b'S' ∷ []

-- snprintf into 256 bytes, one of them for the NUL
unfoldable pub print_ids : Ids → Str
print_ids i =
    take 255 (print_four (as_int i.real) (as_int i.effective) (as_int i.saved) (as_int i.fs))

module _ (getenv : Str → Option Str) where
  unfoldable pub touchuid : Process → Process
  touchuid p = record p { vars = (set_value getenv pseudo_uids (some (print_ids p.uids)) p.vars).1 }

  unfoldable pub touchgid : Process → Process
  touchgid p = record p { vars = (set_value getenv pseudo_gids (some (print_ids p.gids)) p.vars).1 }
