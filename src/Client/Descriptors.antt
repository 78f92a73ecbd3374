-- ===== src/Client/Descriptors.antt =====
-- The paths that the client remembers for the open descriptors: fd_path to pseudo_client_closefrom of
-- pseudo_client.c.
use pseudo.Prelude.{
  ℕ, zero, suc, ◌-◌, Bool, true, false, ◌&&◌, Option, none, some, List, [], ◌∷◌, ◌++◌, Str, str_eq,
  length, set, replicate, leb, ltb, ◌==◌, ℤ, pos, negsuc, if◌then◌else◌,
}

-- `fd_paths` of length `nfds`, `linked_fd_paths` of length `linked_nfds`, and `pseudo_cwd`; a null
-- pointer is none.
pub record Table : Type 0 where
  pub fd_paths : List (Option Str)
  pub linked_fd_paths : List (Option Str)
  pub cwd : Option Str

-- an entry of an array, none out of range
abbrev pub entry : List (Option Str) → ℕ → Option Str
entry [] i = none
entry (p ∷ ps) zero = p
entry (p ∷ ps) (suc i) = entry ps i

-- AT_FDCWD is -100.
unfoldable pub fd_path : ℤ → Table → Option Str
fd_path (pos fd) t = entry t.fd_paths fd
fd_path (negsuc n) t = if n == 99 then t.cwd else none

-- pseudo_client_path_set for fd >= 0
unfoldable pub store : ℕ → Option Str → List (Option Str) → List (Option Str)
store fd path paths =
    if leb (length paths) fd
    then paths ++ (replicate (fd - length paths) none ++ path ∷ [])
    else set paths fd path

unfoldable pub client_path_set : ℤ → Option Str → List (Option Str) → List (Option Str)
client_path_set (pos fd) path paths = store fd path paths
client_path_set (negsuc n) path paths = paths

unfoldable pub client_path : ℤ → Option Str → Table → Table
client_path fd path t = record t { fd_paths = client_path_set fd path t.fd_paths }

-- `paths[fd] && !strcmp (text, paths[fd])`
abbrev pub matches : Str → Option Str → Bool
matches text none = false
matches text (some p) = str_eq text p

abbrev pub is_set : Option Str → Bool
is_set none = false
is_set (some p) = true

-- `for (fd = from; fd < from + count; ++fd)`
abbrev pub each {ℓ} : {A : Type ℓ} → ℕ → ℕ → (ℕ → A → A) → A → A
each zero from body a = a
each (suc count) from body a = each count (suc from) body (body from a)

unfoldable pub linked_step : Str → Str → ℕ → Table → Table
linked_step old new fd t =
    if matches old (entry t.fd_paths fd)
    then record t { linked_fd_paths = store fd (some new) t.linked_fd_paths }
    else t

unfoldable pub client_linked_paths : Str → Str → Table → Table
client_linked_paths old new t = each (length t.fd_paths - 3) 3 (linked_step old new) t

unfoldable pub rename_step : Str → Str → ℕ → Table → Table
rename_step old new fd t =
    if matches old (entry t.fd_paths fd)
    then record t { fd_paths = store fd (some new) t.fd_paths }
    else t

unfoldable pub rename_linked_step : Str → Str → ℕ → Table → Table
rename_linked_step old new fd t =
    if is_set (entry t.fd_paths fd) && matches old (entry t.linked_fd_paths fd)
    then record t { linked_fd_paths = store fd (some new) t.linked_fd_paths }
    else t

unfoldable pub client_rename_path : Str → Str → Table → Table
client_rename_path old new t =
    let named = each (length t.fd_paths - 3) 3 (rename_step old new) t in
    each (length named.linked_fd_paths) 0 (rename_linked_step old new) named

unfoldable pub unlinked_step : Str → ℕ → Table → Table
unlinked_step path fd t =
    if is_set (entry t.linked_fd_paths fd) && matches path (entry t.fd_paths fd)
    then record t { fd_paths = store fd (entry t.linked_fd_paths fd) t.fd_paths }
    else t

unfoldable pub client_unlinked_path : Str → Table → Table
client_unlinked_path path t = each (length t.linked_fd_paths) 0 (unlinked_step path) t

-- the body of both closing functions, for a descriptor below `nfds`
unfoldable pub forget : ℕ → Table → Table
forget fd t = record t {
  fd_paths = set t.fd_paths fd none;
  linked_fd_paths =
      if ltb fd (length t.linked_fd_paths)
      then set t.linked_fd_paths fd none
      else t.linked_fd_paths;
}

unfoldable pub client_close : ℤ → Table → Table
client_close (negsuc n) t = t
client_close (pos fd) t = if leb (length t.fd_paths) fd then t else forget fd t

unfoldable pub client_closefrom : ℤ → Table → Table
client_closefrom (negsuc n) t = t
client_closefrom (pos fd) t = each (length t.fd_paths - fd) fd forget t
