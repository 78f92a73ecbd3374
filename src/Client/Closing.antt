-- ===== src/Client/Closing.antt =====
-- closefrom: OP_CLOSEFROM of pseudo_client_op (pseudo_client.c), which spares descriptors of the
-- library's own, and wrap_closefrom of ports/linux/guts/closefrom.c, which closes the rest.
use pseudo.Prelude.{
  ℕ, zero, suc, ◌+◌, ◌-◌, Bool, true, false, ◌||◌, List, [], ◌∷◌, ltb, ℤ, pos, negsuc, int_eq,
  if◌then◌else◌,
}
use pseudo.Client.Descriptors.{Table, client_close, client_closefrom}

abbrev pub int_lt : ℤ → ℤ → Bool
int_lt (pos a) (pos b) = ltb a b
int_lt (pos a) (negsuc b) = false
int_lt (negsuc a) (pos b) = true
int_lt (negsuc a) (negsuc b) = ltb b a

abbrev pub next : ℤ → ℤ
next (pos n) = pos (n + 1)
next (negsuc zero) = pos 0
next (negsuc (suc n)) = negsuc n

-- to - from, where it is not negative
abbrev pub distance : ℤ → ℤ → ℕ
distance (pos a) (pos b) = b - a
distance (pos a) (negsuc b) = 0
distance (negsuc a) (pos b) = a + 1 + b
distance (negsuc a) (negsuc b) = a - b

-- if (own > startfd) startfd = own + 1, for each of the library's own descriptors in turn
abbrev pub raise : ℤ → ℤ → ℤ
raise start own = if int_lt start own then next own else start

abbrev pub start_from : ℤ → List ℤ → ℤ
start_from start [] = start
start_from start (own ∷ rest) = start_from (raise start own) rest

abbrev pub among : ℤ → List ℤ → Bool
among i [] = false
among i (own ∷ rest) = int_eq i own || among i rest

-- `for (i = from; i < from + count; ++i)`: the descriptors that are closed, those of the library left out
abbrev pub closed_below : List ℤ → ℕ → ℤ → List ℤ
closed_below own zero i = []
closed_below own (suc count) i =
    let rest = closed_below own count (next i) in if among i own then rest else i ∷ rest

abbrev pub close_all : List ℤ → Table → Table
close_all [] t = t
close_all (i ∷ rest) t = close_all rest (client_close i t)

-- `own` holds the descriptors of the debug log, of the state directory, of the two files of users and
-- groups, and of the connection, in this order. The results are the descriptors that are closed one by
-- one, the one from which the caller closes all, and the table.
pub record Closed : Type 0 where
  pub one_by_one : List ℤ
  pub from : ℤ
  pub table : Table

unfoldable pub closefrom : List ℤ → ℤ → Table → Closed
closefrom own fd t =
    let start = start_from fd own in
    let closed = closed_below own (distance fd start) fd in
    record {
      one_by_one = closed;
      from = start;
      table = client_closefrom start (close_all closed t);
    }
