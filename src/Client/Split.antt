-- ===== src/Client/Split.antt =====
-- The path buffer of the client, as the server takes it apart.
use pseudo.Prelude.{
  ℕ, suc, ◌+◌, ◌-◌, ◌%◌, ◌^◌, ◌<◌, ◌≤◌, ◌≡◌, refl, ap, ◌∙◌, true, false, some, [], ◌∷◌, ◌++◌, Str,
  NoNul, c_str-append_nul, length, drop, ==_of_ne, arith,
}
use pseudo.Message.{Msg, Res}
use pseudo.Db.Tables.{Db}
use pseudo.Server.Context.{Context, fresh, split_paths, has_two_paths, is_rename}

drop-suc : (s t : Str) → drop (suc (length s)) (s ++ 0 ∷ t) ≡ t
drop-suc [] t = refl
drop-suc (c ∷ s) t = drop-suc s t

drop-append_nul : (s t : Str) → drop (length s + 1) (s ++ 0 ∷ t) ≡ t
drop-append_nul s t = ap (λ n. drop n (s ++ 0 ∷ t)) more ∙ drop-suc s t
  where
    more : length s + 1 ≡ suc (length s)
    more = omega arith

pub length-append_nul : (s t : Str) → length (s ++ 0 ∷ t) ≡ length s + 1 + length t
length-append_nul [] t = omega arith
length-append_nul (c ∷ s) t = grind (arith, length-append_nul s t)

-- The context after the split of a buffer with two strings.
abbrev pub divided : Msg → Db → ℕ → Str → Context
divided m db len tail = record (fresh m db) {
  msg = record m { result = Res.succeed; pathlen = len };
  oldpath = some tail;
  oldpathlen = length tail - 1;
}

pub split_paths-divided :
    (m : Msg) (db : Db) (path tail : Str)
    → has_two_paths m.op ≡ true
    → is_rename m.op ≡ false
    → NoNul path
    → 1 ≤ length tail
    → m.path ≡ path ++ 0 ∷ tail
    → m.pathlen ≡ length path + 1 + length tail
    → m.pathlen < 2 ^ 64
    → split_paths (fresh m db) ≡ divided m db (length path) tail
unfolding split_paths fresh
split_paths-divided m db path tail two one clean some_tail e l fits = rw (
  two,
  one,
  e,
  c_str-append_nul path tail clean,
  drop-append_nul path tail,
  ==_of_ne m.pathlen 0 (omega arith),
  old_length,
)
  where
    old_length : (m.pathlen + 2 ^ 64 - (length path + 2)) % 2 ^ 64 ≡ length tail - 1
    old_length = omega arith
