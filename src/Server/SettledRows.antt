-- ===== src/Server/SettledRows.antt =====
-- What becomes of one entry in pseudo_db_check with `fix`: it agrees with the file system, it is marked for
-- deletion, or its own row is still to be read.
use pseudo.Prelude.{
  ℕ, ◌<◌, ◌^◌, ◌≡◌, refl, sym, ap, ◌∙◌, ◌⊎◌, inl, inr, Bool, true, false, not, Option, none, some,
  List, [], ◌∷◌, All, All-map, keep, update_where, Str, str_eq, str_eq_refl, eq_of_str_eq, c_str,
  Bool-cases, int_eq, int_eq_refl,
}
use pseudo.Message.{Msg, is_dir, is_lnk}
use pseudo.Db.Column.{as_int, signed_ino, to_u64, to_u64-signed_ino, to_u64-as_int}
use pseudo.Db.Tables.{FileRow, at_path}
use pseudo.Db.Corrected.{relocated}
use pseudo.Client.Request.{Stat}
use pseudo.Server.Check.{Scan}
use pseudo.Server.Checked.{Agrees}
use pseudo.Server.CheckStep.{SameType, Step}

-- The numbers of every file pass through the columns.
abbrev pub InRange : (Str → Option Stat) → Type 0
InRange lstat = (p : Str) (st : Stat) → lstat p ≡ some st → (st.ino < 2 ^ 64) × (st.dev < 2 ^ 31)

not_both : true ≡ false → ⊥
not_both h = cc

abbrev value : Stat → Option Stat → Stat
value st none = st
value st (some st') = st'

All-update_where :
    (p : FileRow → Bool) (g : FileRow → FileRow) (P Q : FileRow → Type 0) (xs : List FileRow)
    → ((x : FileRow) → p x ≡ true → P x → Q (g x))
    → ((x : FileRow) → p x ≡ false → P x → Q x)
    → All P xs
    → All Q (update_where p g xs)
All-update_where p g P Q [] hit miss h = tt
All-update_where p g P Q (x ∷ xs) hit miss h = elim (Bool-cases (p x)) [
  | inl e ↦ rw e (hit x e h.0, All-update_where p g P Q xs hit miss h.1)
  | inr e ↦ rw e (miss x e h.0, All-update_where p g P Q xs hit miss h.1)
]

module _ (lstat : Str → Option Stat) (cookie : ℕ) where
  abbrev Located : FileRow → Type 0
  Located x =
      (st : Stat) × (lstat (c_str x.path) ≡ some st)
      × (st.ino ≡ to_u64 x.ino)
      × (st.dev ≡ to_u64 x.dev)

  -- An entry that was read, as it was or with its inode corrected since
  abbrev Matches : FileRow → FileRow → Type 0
  Matches r x =
      (r.path ≡ x.path) × (r.mode ≡ x.mode) × (((r.dev ≡ x.dev) × (r.ino ≡ x.ino)) ⊎ Located x)

  -- One of the rows that are still to come is the entry's.
  abbrev pub Waits : List FileRow → FileRow → Type 0
  Waits [] x = true ≡ false
  Waits (r ∷ rows) x = Matches r x ⊎ Waits rows x

  abbrev pub Settled : Bool → List FileRow → FileRow → Type 0
  Settled deleting rows x =
      Agrees lstat x ⊎ (((x.deleting ≡ as_int cookie) × (deleting ≡ true)) ⊎ Waits rows x)

  Located-SameType : (x : FileRow) (st : Stat) → Located x → SameType lstat x st → Agrees lstat x
  Located-SameType x st (st', e', i, v) (e, l, d) =
      (st, e, l, d, ap (λ z. z.ino) same ∙ i, ap (λ z. z.dev) same ∙ v)
    where
      same : st ≡ st'
      same = ap (value st) (sym e ∙ e')

  same_entry : (r x : FileRow) (st : Stat) → Matches r x → SameType lstat r st → SameType lstat x st
  same_entry r x st (p, m, w) (e, l, d) = (
    ap (λ t. lstat (c_str t)) (sym p) ∙ e,
    l ∙ ap (λ t. is_lnk (to_u64 t)) m,
    d ∙ ap (λ t. is_dir (to_u64 t)) m,
  )

  Matches-Agrees : (r x : FileRow) → Matches r x → Agrees lstat r → Agrees lstat x
  Matches-Agrees r x (p, m, inr w) (st, e, l, d, i, v) =
      Located-SameType x st w (same_entry r x st (p, m, inr w) (e, l, d))
  Matches-Agrees r x (p, m, inl (v', i')) (st, e, l, d, i, v) =
      let k = same_entry r x st (p, m, inl (v', i')) (e, l, d) in
      (st, k.0, k.1, k.2, i ∙ ap to_u64 i', v ∙ ap to_u64 v')

  relocated-Located :
      (r x : FileRow) (st : Stat) (m : Msg)
      → InRange lstat
      → SameType lstat r st
      → x.path ≡ c_str r.path
      → c_str r.path ≡ r.path
      → m.ino ≡ st.ino
      → m.dev ≡ st.dev
      → Located (relocated m x)
  relocated-Located r x st m range (e, l, d) p q i v = (
    st,
    ap (λ t. lstat (c_str t)) (p ∙ q) ∙ e,
    sym (
        ap (λ t. to_u64 (signed_ino t)) i
        ∙ (to_u64-signed_ino st.ino (range (c_str r.path) st e).0).0),
    sym (ap (λ t. to_u64 (as_int t)) v ∙ to_u64-as_int st.dev (range (c_str r.path) st e).1),
  )

  relocated-Waits :
      (rows : List FileRow) (x : FileRow) (m : Msg)
      → Located (relocated m x)
      → Waits rows x
      → Waits rows (relocated m x)
  relocated-Waits [] x m l w = w
  relocated-Waits (r ∷ rows) x m l (inl (p, k, w)) = inl (p, k, inr l)
  relocated-Waits (r ∷ rows) x m l (inr w) = inr (relocated-Waits rows x m l w)

  -- An entry at another path does not wait for this row.
  others-Settled :
      (rows : List FileRow) (r x : FileRow) (before after : Bool)
      → c_str r.path ≡ r.path
      → at_path (c_str r.path) x ≡ false
      → (before ≡ true → after ≡ true)
      → Settled before (r ∷ rows) x
      → Settled after rows x
  others-Settled rows r x before after q e keeps (inl a) = inl a
  others-Settled rows r x before after q e keeps (inr (inl (d, t))) = inr (inl (d, keeps t))
  others-Settled rows r x before after q e keeps (inr (inr (inr w))) = inr (inr w)
  others-Settled rows r x before after q e keeps (inr (inr (inl (p, k, w)))) =
      absurd (not_both (sym (str_eq_refl x.path) ∙ ap (str_eq x.path) (sym p ∙ sym q) ∙ e))

  unchanged-Settled :
      (rows : List FileRow) (r x : FileRow) (deleting : Bool)
      → Agrees lstat r
      → Settled deleting (r ∷ rows) x
      → Settled deleting rows x
  unchanged-Settled rows r x deleting a (inl b) = inl b
  unchanged-Settled rows r x deleting a (inr (inl d)) = inr (inl d)
  unchanged-Settled rows r x deleting a (inr (inr (inl w))) = inl (Matches-Agrees r x w a)
  unchanged-Settled rows r x deleting a (inr (inr (inr w))) = inr (inr w)

  corrected-Settled :
      (rows : List FileRow) (r x : FileRow) (st : Stat) (m : Msg) (deleting : Bool)
      → SameType lstat r st
      → Located (relocated m x)
      → Settled deleting (r ∷ rows) x
      → Settled deleting rows (relocated m x)
  corrected-Settled rows r x st m deleting k l (inl (st', e, a, d, _, _)) =
      inl (Located-SameType (relocated m x) st' l (e, a, d))
  corrected-Settled rows r x st m deleting k l (inr (inl d)) = inr (inl d)
  corrected-Settled rows r x st m deleting k l (inr (inr (inl (p, o, w)))) =
      inl (Located-SameType (relocated m x) st l (same_entry r x st (p, o, w) k))
  corrected-Settled rows r x st m deleting k l (inr (inr (inr w))) =
      inr (inr (relocated-Waits rows x m l w))

  pub Step-Settled :
      (rows : List FileRow) (r : FileRow) (s s' : Scan)
      → InRange lstat
      → c_str r.path ≡ r.path
      → s.db.is_open ≡ true
      → Step lstat cookie r s s'
      → All (Settled s.delete_some (r ∷ rows)) s.db.files
      → All (Settled s'.delete_some rows) s'.db.files × (s'.db.is_open ≡ true)
  Step-Settled rows r s s' range q h (Step.unchanged e a) all =
      rw e (All-map _ _ s.db.files (λ x. unchanged-Settled rows r x s.delete_some a) all, h)
  Step-Settled rows r s s' range q h (Step.corrected st m k i v files open' same) all = (
    rw (files, same)
        (All-update_where _ _ _ _ s.db.files
          (λ x e.
            corrected-Settled rows r x st m s.delete_some k
              (relocated-Located r x st m range k (eq_of_str_eq _ _ e) q i v))
          (λ x e. others-Settled rows r x s.delete_some s.delete_some q e (λ t. t)) all),
    open',
  )
  Step-Settled rows r s s' range q h (Step.deleted files open' some') all = (
    rw (files, some')
        (All-update_where _ _ _ _ s.db.files (λ x e w. inr (inl (refl, refl)))
          (λ x e. others-Settled rows r x s.delete_some true q e (λ t. refl)) all),
    open',
  )

  pub Waits-self : (rows : List FileRow) → All (Waits rows) rows
  Waits-self [] = tt
  Waits-self (r ∷ rows) =
      (inl (refl, refl, inl (refl, refl)), All-map _ _ rows (λ x w. inr w) (Waits-self rows))

  -- At the end, the entries that are not deleted agree.
  remaining :
      (x : FileRow) → Settled true [] x → int_eq x.deleting (as_int cookie) ≡ false → Agrees lstat x
  remaining x (inl a) e = a
  remaining x (inr (inl (d, t))) e = absurd (
      not_both (sym (int_eq_refl (as_int cookie)) ∙ ap (λ z. int_eq z (as_int cookie)) (sym d) ∙ e))
  remaining x (inr (inr w)) e = absurd (not_both w)

  pub remain-Agrees :
      (rows : List FileRow)
      → All (Settled true []) rows
      → All (Agrees lstat) (keep (λ x. not (int_eq x.deleting (as_int cookie))) rows)
  remain-Agrees [] h = tt
  remain-Agrees (x ∷ rows) h = elim (Bool-cases (int_eq x.deleting (as_int cookie))) [
    | inl e ↦ rw e (remain-Agrees rows h.1)
    | inr e ↦ rw e (remaining x h.0 e, remain-Agrees rows h.1)
  ]

  pub none_deleted : (x : FileRow) → Settled false [] x → Agrees lstat x
  none_deleted x (inl a) = a
  none_deleted x (inr (inl (d, t))) = absurd (not_both (sym t))
  none_deleted x (inr (inr w)) = absurd (not_both w)
