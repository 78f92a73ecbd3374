-- ===== src/Ids/Startup.antt =====
-- pseudo_init_client of pseudo_client.c: what it takes from the environment of the process. The
-- directories that it opens, the umask, the user files and the connection are left out, and so is
-- the counter of pseudo_antimagic.
use pseudo.Prelude.{
  ℕ, ◌==◌, Bool, true, false, not, ◌&&◌, ◌||◌, Option, none, some, List, [], ◌∷◌, Str, get_elem?, ℤ,
  pos, if◌then◌else◌,
}
use pseudo.Db.Column.{to_u32}
use pseudo.Values.{set_value, get_value}
use pseudo.Ids.Decimal.{scan_int, scan_ints}
use pseudo.Ids.State.{Process, pseudo_uids, pseudo_gids}

pub record Client : Type 0 where
  pub is_disabled : Bool
  pub local_only : Bool
  pub is_inited : Bool
  pub allow_fsync : Bool
  pub nosymlinkexp : ℤ
  pub chroot : Option Str
  pub passwd : Option Str
  pub process : Process

abbrev pub pseudo_ : Str → Str
pseudo_ s = b'P' ∷ b'S' ∷ b'E' ∷ b'U' ∷ b'D' ∷ b'O' ∷ b'_' ∷ s

abbrev pub disabled_key : Str
disabled_key = pseudo_ (b'D' ∷ b'I' ∷ b'S' ∷ b'A' ∷ b'B' ∷ b'L' ∷ b'E' ∷ b'D' ∷ [])

abbrev pub fsync_key : Str
fsync_key =
    pseudo_ (b'A' ∷ b'L' ∷ b'L' ∷ b'O' ∷ b'W' ∷ b'_' ∷ b'F' ∷ b'S' ∷ b'Y' ∷ b'N' ∷ b'C' ∷ [])

abbrev pub unload_key : Str
unload_key = pseudo_ (b'U' ∷ b'N' ∷ b'L' ∷ b'O' ∷ b'A' ∷ b'D' ∷ [])

abbrev pub nosymlinkexp_key : Str
nosymlinkexp_key =
    pseudo_ (b'N' ∷ b'O' ∷ b'S' ∷ b'Y' ∷ b'M' ∷ b'L' ∷ b'I' ∷ b'N' ∷ b'K' ∷ b'E' ∷ b'X' ∷ b'P' ∷ [])

abbrev pub chroot_key : Str
chroot_key = pseudo_ (b'C' ∷ b'H' ∷ b'R' ∷ b'O' ∷ b'O' ∷ b'T' ∷ [])

abbrev pub passwd_key : Str
passwd_key = pseudo_ (b'P' ∷ b'A' ∷ b'S' ∷ b'S' ∷ b'W' ∷ b'D' ∷ [])

-- switch (*env): whether pseudo is disabled, and whether it works without a server.
unfoldable pub says_off : Str → Bool × Bool
says_off [] = (true, false)
says_off (c ∷ s) =
    if c == b'0' || (c == b'f' || (c == b'F' || (c == b'n' || c == b'N')))
    then (false, false)
    else if c == b's' || c == b'S'
    then (false, true)
    else (true, false)

-- What the k-th conversion of a scanf leaves in its variable.
abbrev pub given : List ℤ → ℕ → ℕ → ℕ
given xs k old = elim (get_elem? xs k) [ none ↦ old | some z ↦ to_u32 z ]

unfoldable pub take_uids : Option Str → Process → Process
take_uids none p = p
take_uids (some s) p =
    let xs = scan_ints 4 s in
    record p {
      uids = record {
        real = given xs 0 p.uids.real;
        effective = given xs 1 p.uids.effective;
        saved = given xs 2 p.uids.saved;
        fs = given xs 3 p.uids.fs;
      };
    }

-- The fourth number goes into pseudo_fuid.
unfoldable pub take_gids : Option Str → Process → Process
take_gids none p = p
take_gids (some s) p =
    let xs = scan_ints 4 s in
    record p {
      gids = record {
        real = given xs 0 p.gids.real;
        effective = given xs 1 p.gids.effective;
        saved = given xs 2 p.gids.saved;
        fs = p.gids.fs;
      };
      uids = record p.uids { fs = given xs 3 p.uids.fs };
    }

-- strtol of the whole value; 1 for one that is empty or has a rest.
unfoldable pub take_nosymlinkexp : Option Str → ℤ
take_nosymlinkexp none = pos 0
take_nosymlinkexp (some s) = elim (scan_int s) [
  | none ↦ pos 1
  | some (n, []) ↦ n
  | some (n, c ∷ rest) ↦ pos 1
]

module _ (getenv : Str → Option Str) where
  abbrev set : Str → Str → Process → Process
  set key value p = record p { vars = (set_value getenv key (some value) p.vars).1 }

  abbrev get : Str → Process → Option Str × Process
  get key p = let (value, vars) = get_value getenv key p.vars in (value, record p { vars = vars })

  -- getenv, and pseudo_get_value if that has none
  abbrev either : Str → Process → Option Str × Process
  either key p = elim (getenv key) [ some value ↦ (some value, p) | none ↦ get key p ]

  switch_off : Client → Client
  switch_off c = record c { is_disabled = true; process = set disabled_key (b'1' ∷ []) c.process }

  -- A client that is enabled again reads its initial values again.
  switch_on : Client → Client
  switch_on c = record c {
    is_disabled = false;
    is_inited = c.is_inited && not c.is_disabled;
    process = set disabled_key (b'0' ∷ []) c.process;
  }

  unfoldable pub init_disabled : Client → Client
  unfolding switch_off switch_on
  init_disabled c =
      let (env, p) = either disabled_key c.process in
      let found = record c { process = p } in
      elim env [
        | none ↦ record found { process = set disabled_key (b'0' ∷ []) p }
        | some s ↦
            let (off, alone) = says_off s in
            let chosen = record found { local_only = alone || c.local_only } in
            if off then switch_off chosen else switch_on chosen
      ]

  unfoldable pub init_fsync : Client → Client
  init_fsync c = elim (getenv fsync_key) [
    | some s ↦ record c { allow_fsync = true; process = set fsync_key s c.process }
    | none ↦
        let (env, p) = get fsync_key c.process in
        record c { allow_fsync = elim env [ none ↦ false | some s ↦ true ]; process = p }
  ]

  unfoldable pub init_unload : Client → Client
  init_unload c = elim (getenv unload_key) [
    | none ↦ c
    | some s ↦ record c { is_disabled = true; process = set unload_key s c.process }
  ]

  -- if (!pseudo_inited)
  unfoldable pub reset : Client → Client
  reset c =
      if c.is_inited then c else record c { chroot = none; passwd = none; nosymlinkexp = pos 0 }

  unfoldable pub init_ids : Process → Process
  init_ids p =
      let (uids, p1) = get pseudo_uids p in
      let (gids, p2) = get pseudo_gids (take_uids uids p1) in take_gids gids p2

  -- if (!pseudo_disabled && !pseudo_inited)
  unfoldable pub init_values : Client → Client
  init_values c =
      let (links, p1) = get nosymlinkexp_key c.process in
      let (root, p3) = get chroot_key (init_ids p1) in
      let (users, p4) = get passwd_key p3 in
      record c {
        nosymlinkexp = take_nosymlinkexp links;
        chroot = elim root [ none ↦ c.chroot | some s ↦ some s ];
        passwd = elim users [ none ↦ c.passwd | some s ↦ some s ];
        process = p4;
        is_inited = true;
      }

  unfoldable pub init_client : Client → Client
  init_client c =
      let r = reset (init_unload (init_fsync (init_disabled c))) in
      if r.is_disabled || r.is_inited then r else init_values r
