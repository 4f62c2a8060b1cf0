-- ===== src/Prisma/Unique.antt =====
-- A key that no two rows of a table share, as the `@unique` columns of packages/db/prisma/schema.prisma,
-- under the writes of the database client.
use ai_saas_multi_tenant.Base.{
  ◌≡◌, sym, ap, ◌∙◌, inl, inr, Bool, true, none, List, [], ◌∷◌, ◌++◌, Bool-cases,
}
use ai_saas_multi_tenant.Prisma.{Prisma}
use ai_saas_multi_tenant.Prisma.Rows.{In, update_row, map-In, append-In, remove-In, All_lookup}

module _ {R K : Type 0} (key : R → K) where
  abbrev pub Once : List R → Type 0
  Once rows = (r s : R) → In r rows → In s rows → key r ≡ key s → r ≡ s

  Once-append :
      (xs : List R) (new : R)
      → Once xs
      → ((r : R) → In r xs → key r ≡ key new → ⊥)
      → Once (xs ++ new ∷ [])
  Once-append xs new once fresh r s m n same = elim (append-In xs m) [
    | inl old_r ↦ elim (append-In xs n) [
      | inl old_s ↦ once r s old_r old_s same
      | inr new_s ↦ absurd (fresh r old_r (same ∙ ap key new_s))
    ]
    | inr new_r ↦ elim (append-In xs n) [
      | inl old_s ↦ absurd (fresh s old_s (sym same ∙ ap key new_r))
      | inr new_s ↦ new_r ∙ sym new_s
    ]
  ]

  updated_key :
      (p : R → Bool) (f : R → R)
      → ((r : R) → key (f r) ≡ key r)
      → (r : R) → key (update_row p f r) ≡ key r
  updated_key p f keep r = elim (Bool-cases (p r)) [
    | inl hit ↦ rw hit (keep r)
    | inr miss ↦ rw miss
  ]

  module _ (db : Prisma) (t : db.Table R) (once : Once (db.rows t)) where
    pub create-Once :
        (new : R)
        → ((r : R) → In r (db.rows t) → key r ≡ key new → ⊥)
        → Once (db.rows (db.create new t))
    create-Once new fresh = rw (db.rows-create new t) (Once-append (db.rows t) new once fresh)

    pub update_many-Once :
        (p : R → Bool) (f : R → R)
        → ((r : R) → key (f r) ≡ key r)
        → Once (db.rows (db.update_many p f t))
    update_many-Once p f keep r s m n same =
        let (r_old, in_r, is_r) =
          map-In (update_row p f) (db.rows t) (rw (db.rows-update_many p f t) at m) in
        let (s_old, in_s, is_s) =
          map-In (update_row p f) (db.rows t) (rw (db.rows-update_many p f t) at n) in
        let same_old =
          sym (updated_key p f keep r_old)
          ∙ sym (ap key is_r)
          ∙ same
          ∙ ap key is_s
          ∙ updated_key p f keep s_old in
        is_r ∙ ap (update_row p f) (once r_old s_old in_r in_s same_old) ∙ sym is_s

    pub delete_many-Once : (p : R → Bool) → Once (db.rows (db.delete_many p t))
    delete_many-Once p r s m n same =
        once r s (remove-In p (db.rows t) r (rw (db.rows-delete_many p t) at m)).0
          (remove-In p (db.rows t) s (rw (db.rows-delete_many p t) at n)).0 same

-- A query that finds nothing excludes every row that it would select.
pub not_found-excludes :
    (db : Prisma) {R : Type 0} (p : R → Bool) (t : db.Table R) (r : R)
    → db.find_first p t ≡ none
    → In r (db.rows t)
    → p r ≡ true
    → ⊥
not_found-excludes db p t r missing m hit =
    let miss = All_lookup _ (db.rows t) (db.find_first-none p t missing) m in cc
