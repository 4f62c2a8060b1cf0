-- ===== src/Services/Issues/Listing/Pages.antt =====
-- The pages of `list`, followed by their cursors.
use ai_saas_multi_tenant.Base.{
  take, ℕ, zero, suc, ◌≤◌, ◌<◌, ◌≡◌, ◌↔◌, refl, sym, ap, ◌∙◌, ◌⊎◌, inl, inr, Bool, true, false,
  Option, none, some, List, [], ◌∷◌, ◌++◌, arith, ◌==◌, ltb, if◌then◌else◌, Text, text_eq, ◌&&◌,
  length, All, Bool-cases,
}
use mathlib.Core.List.{append_assoc}
use ai_saas_multi_tenant.Prisma.{Prisma}
use ai_saas_multi_tenant.Prisma.Rows.{All-select, In-select, select-In, In, select}
use ai_saas_multi_tenant.Model.Data.{RowId, Project, Issue, same_status}
use ai_saas_multi_tenant.Model.World.{World}
use ai_saas_multi_tenant.Model.Action.{Result, ok, throw}
use ai_saas_multi_tenant.Services.Issues.{find_project}
use ai_saas_multi_tenant.Services.Issues.Listing.{
  IssueFilter, is_listed, from_cursor, listing, list,
}

-- The ids are different.
abbrev pub DistinctIds : List Issue → Type 0
DistinctIds [] = Unit
DistinctIds (i ∷ is) = All (λ (j : Issue). (j.id == i.id) ≡ false) is × DistinctIds is

select-DistinctIds :
    (p : Issue → Bool) (is : List Issue) → DistinctIds is → DistinctIds (select p is)
select-DistinctIds p [] h = tt
select-DistinctIds p (i ∷ is) h = elim (Bool-cases (p i)) [
  | inl hit ↦ rw hit (All-select p _ is h.0, select-DistinctIds p is h.1)
  | inr miss ↦ rw miss (select-DistinctIds p is h.1)
]

-- The columns of `orderBy` do not tell the rows apart.
abbrev pub is_tied : Issue → Issue → Bool
is_tied i j = same_status i.status j.status && text_eq i.rank j.rank

-- No two rows are tied.
abbrev pub Untied : List Issue → Type 0
Untied [] = Unit
Untied (i ∷ is) = All (λ (j : Issue). is_tied i j ≡ false) is × Untied is

-- The id of the last row, which is the next cursor.
unfoldable pub last_id : List Issue → Option RowId
last_id [] = none
last_id (i ∷ []) = some i.id
last_id (i ∷ j ∷ is) = last_id (j ∷ is)

last_id-append : (pre : List Issue) (i : Issue) → last_id (pre ++ i ∷ []) ≡ some i.id
unfolding last_id
last_id-append [] i = refl
last_id-append (j ∷ []) i = refl
last_id-append (j ∷ k ∷ pre) i = last_id-append (k ∷ pre) i

-- A page that is full, and what it leaves; or the page has all that there is.
page_cases :
    (n : ℕ) (rest : List Issue)
    → ((take (suc n) rest ≡ rest) × (length rest < suc n))
      ⊎ ((pre : List Issue) × ((i : Issue) × ((post : List Issue) × (take (suc n) rest
                ≡ pre ++ i ∷ [])
              × (rest ≡ pre ++ i ∷ post)
              × (length (pre ++ i ∷ []) ≡ suc n)
              × (length post < length rest))))
page_cases n [] = inl (refl, omega arith)
page_cases zero (i ∷ is) = inr ([], (i, (is, refl, refl, refl, omega arith)))
page_cases (suc n) (i ∷ is) = elim (page_cases n is) [
  | inl (e, short) ↦ inl (ap (λ t. i ∷ t) e, omega (arith, short))
  | inr (pre, (j, (post, e, f, full, less))) ↦
      inr (
        i ∷ pre,
        (j, (post, ap (λ t. i ∷ t) e, ap (λ t. i ∷ t) f, ap suc full, omega (arith, less))),
      )
]

module _ (contains : Text → Text → Bool) (ordered : List Issue → List Issue)
    (behind : RowId → List Issue → List Issue) {db : Prisma} (org : RowId) (key : ℕ)
    (filter : IssueFilter) (w : World db) where
  abbrev pub at_cursor : Option RowId → IssueFilter
  at_cursor cursor = record filter { cursor = cursor }

  abbrev pub behind_page : List Issue → Option (List Issue) → Option (List Issue)
  behind_page page none = none
  behind_page page (some rest) = some (page ++ rest)

  -- A page, and the pages after it when it is not short.
  unfoldable pub with_later :
      Result (List Issue) → (Option RowId → Option (List Issue)) → Option (List Issue)
  with_later (throw e) later = none
  with_later (ok page) later =
      if ltb (length page) filter.limit then some page else behind_page page (later (last_id page))

  -- Pages are asked for from a cursor on, each from the last row of the one before, until one is short.
  unfoldable pub all_pages : ℕ → Option RowId → Option (List Issue)
  all_pages zero cursor = none
  all_pages (suc fuel) cursor =
      with_later (list contains ordered behind org key (at_cursor cursor) w).0
        (λ c. all_pages fuel c)

  last_page :
      (page : List Issue) (later : Option RowId → Option (List Issue))
      → length page < filter.limit
      → with_later (ok page) later ≡ some page
  unfolding with_later
  last_page page later short = ground (arith, short)

  full_page :
      (page : List Issue) (i : Issue) (post : List Issue)
      (later : Option RowId → Option (List Issue))
      → length (page ++ i ∷ []) ≡ filter.limit
      → later (some i.id) ≡ some post
      → with_later (ok (page ++ i ∷ [])) later ≡ some (page ++ i ∷ post)
  unfolding with_later
  full_page page i post later full e =
      let is_full : ltb (length (page ++ i ∷ [])) filter.limit ≡ false = ground (arith, full) in
      let rest : later (last_id (page ++ i ∷ [])) ≡ some post =
        ap later (last_id-append page i) ∙ e in
      rw (is_full, rest) (ap some (append_assoc page (i ∷ []) post))

  module _ (p : Project) (found : find_project org key w ≡ some p)
      (seeks : (is pre : List Issue) (i : Issue) (post : List Issue)
        → ordered is ≡ pre ++ i ∷ post
        → DistinctIds (ordered is)
        → Untied (ordered is)
        → behind i.id (ordered is) ≡ post) where
    abbrev pub whole : List Issue
    whole = listing contains ordered behind org p.id filter w

    list-page :
        (cursor : Option RowId)
        → (list contains ordered behind org key (at_cursor cursor) w).0
          ≡ ok (take filter.limit (from_cursor contains ordered behind cursor whole))
    unfolding list
    list-page cursor = rw found

    pages_from :
        (n fuel : ℕ) (pre rest : List Issue) (cursor : Option RowId)
        → filter.limit ≡ suc n
        → DistinctIds whole
        → Untied whole
        → whole ≡ pre ++ rest
        → from_cursor contains ordered behind cursor whole ≡ rest
        → length rest < fuel
        → all_pages fuel cursor ≡ some rest
    unfolding all_pages
    pages_from n zero pre rest cursor limit distinct untied split at fuelled =
        absurd (omega (arith, fuelled))
    pages_from n (suc fuel) pre rest cursor limit distinct untied split at fuelled =
        elim (page_cases n rest) [
          | inl (e, short) ↦
              ap (λ r. with_later r later) (page_is rest e)
              ∙ last_page rest later (omega (arith, limit, short))
          | inr (pre', (i, (post, e, f, full, less))) ↦
              let where_i : whole ≡ (pre ++ pre') ++ i ∷ post =
                split ∙ ap (λ l. pre ++ l) f ∙ sym (append_assoc pre pre' (i ∷ post)) in
              let next : behind i.id whole ≡ post =
                seeks _ (pre ++ pre') i post where_i distinct untied in
              let rest_is : all_pages fuel (some i.id) ≡ some post =
                pages_from n fuel ((pre ++ pre') ++ i ∷ []) post (some i.id) limit distinct untied
                  (where_i ∙ sym (append_assoc (pre ++ pre') (i ∷ []) post)) next
                  (omega (arith, less, fuelled)) in
              ap (λ r. with_later r later) (page_is (pre' ++ i ∷ []) e)
              ∙ full_page pre' i post later (full ∙ sym limit) rest_is
              ∙ ap some (sym f)
        ]
      where
        later : Option RowId → Option (List Issue)
        later c = all_pages fuel c

        page_is :
            (page : List Issue)
            → take (suc n) rest ≡ page
            → (list contains ordered behind org key (at_cursor cursor) w).0 ≡ ok page
        page_is page e =
            list-page cursor
            ∙ ap ok (
                ap (λ l. take l (from_cursor contains ordered behind cursor whole)) limit
                ∙ ap (take (suc n)) at
                ∙ e)

-- For a known project, a limit of at least one, issues of different ids, selected rows of which no two share the status
-- and the rank, and a database whose order keeps the rows and whose cursor yields what follows its row where no two rows
-- are tied so: asking for `list` without a cursor and then with the id of the last row of
-- each full page ends within any number of requests above the number of selected rows. The pages together are the
-- selected rows in the board's order, no row twice, and hold exactly the issues that meet the filter.
pub pages_complete :
    (contains : Text → Text → Bool) (ordered : List Issue → List Issue)
    (behind : RowId → List Issue → List Issue) {db : Prisma} (org : RowId) (key : ℕ)
    (filter : IssueFilter) (w : World db) (p : Project)
    (seeks : (is pre : List Issue) (i : Issue) (post : List Issue)
      → ordered is ≡ pre ++ i ∷ post
      → DistinctIds (ordered is)
      → Untied (ordered is)
      → behind i.id (ordered is) ≡ post)
    (keeps_ids : (is : List Issue) → DistinctIds is → DistinctIds (ordered is))
    (keeps_rows : (is : List Issue) (i : Issue) → In i (ordered is) ↔ In i is)
    → find_project org key w ≡ some p
    → DistinctIds (db.rows w.issues)
    → Untied (listing contains ordered behind org p.id filter w)
    → 1 ≤ filter.limit
    → (fuel : ℕ) → length (listing contains ordered behind org p.id filter w) < fuel
    → (all_pages contains ordered behind org key filter w fuel none
        ≡ some (listing contains ordered behind org p.id filter w))
      × DistinctIds (listing contains ordered behind org p.id filter w)
      × ((i : Issue)
          → In i (listing contains ordered behind org p.id filter w)
            ↔ (In i (db.rows w.issues) × (is_listed contains org p.id filter i ≡ true)))
pages_complete contains ordered behind {db} org key filter w p seeks keeps_ids keeps_rows found
      distinct untied positive fuel fuelled =
    let ids = keeps_ids _ (select-DistinctIds (is_listed contains org p.id filter) _ distinct) in
    let (n, limit) = one_more filter.limit positive in
    (
      pages_from contains ordered behind org key filter w p found seeks n fuel [] _ none limit ids
          untied refl refl fuelled,
      ids,
      λ i. (
        λ m. In-select _ _ i ((keeps_rows _ i).0 m),
        λ (m, h). (keeps_rows _ i).1 (select-In _ _ i m h),
      ),
    )
  where
    one_more : (k : ℕ) → 1 ≤ k → (n : ℕ) × (k ≡ suc n)
    one_more zero h = absurd (omega (arith, h))
    one_more (suc n) h = (n, refl)
