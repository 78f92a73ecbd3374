-- ===== src/Db/Select.antt =====
-- What a SELECT steps to: nothing from no row, the row itself from one row.
use pseudo.Prelude.{
  ◌≡◌, ◌⊎◌, refl, ap, ◌∙◌, true, false, none, some, List, [], ◌∷◌, Option-cases, inl, inr,
}
use pseudo.Db.Tables.{FileRow, XattrRow, Sqlite, is_nil}

module _ (sql : Sqlite) where
  pub first_file-one : (r : FileRow) → sql.first_file (r ∷ []) ≡ some r
  first_file-one r = elim (Option-cases (sql.first_file (r ∷ []))) [
    | inl e ↦ absurd (sql.first_file-cons r [] e)
    | inr (s, e) ↦ e ∙ ap some (sql.first_file-from (λ x. x ≡ r) (r ∷ []) s (refl, tt) e)
  ]

  pub first_xattr-one : (r : XattrRow) → sql.first_xattr (r ∷ []) ≡ some r
  first_xattr-one r = elim (Option-cases (sql.first_xattr (r ∷ []))) [
    | inl e ↦ absurd (sql.first_xattr-cons r [] e)
    | inr (s, e) ↦ e ∙ ap some (sql.first_xattr-from (λ x. x ≡ r) (r ∷ []) s (refl, tt) e)
  ]

  -- A SELECT steps to a row exactly if some row matches.
  pub first_xattr-cases :
      (rs : List XattrRow)
      → ((is_nil rs ≡ true) × (sql.first_xattr rs ≡ none))
        ⊎ ((r : XattrRow) × (is_nil rs ≡ false) × (sql.first_xattr rs ≡ some r))
  first_xattr-cases [] = inl (refl, sql.first_xattr-nil)
  first_xattr-cases (x ∷ rs) = elim (Option-cases (sql.first_xattr (x ∷ rs))) [
    | inl e ↦ absurd (sql.first_xattr-cons x rs e)
    | inr (r, e) ↦ inr (r, refl, e)
  ]

  pub first_file-cases :
      (rs : List FileRow)
      → ((is_nil rs ≡ true) × (sql.first_file rs ≡ none))
        ⊎ ((r : FileRow) × (is_nil rs ≡ false) × (sql.first_file rs ≡ some r))
  first_file-cases [] = inl (refl, sql.first_file-nil)
  first_file-cases (x ∷ rs) = elim (Option-cases (sql.first_file (x ∷ rs))) [
    | inl e ↦ absurd (sql.first_file-cons x rs e)
    | inr (r, e) ↦ inr (r, refl, e)
  ]
