-- ===== src/Web/Sync.antt =====
-- The rows of a board as issues.service.ts writes them, and the cache of use-board-realtime.ts.
use ai_saas_multi_tenant.Base.{
  ◌≡◌, refl, sym, ap, ◌∙◌, inl, inr, Bool, true, some, List, [], ◌∷◌, ◌++◌, map, arith, Text, ◌==◌,
  Bool-cases,
}
use ai_saas_multi_tenant.Prisma.{Prisma}
use ai_saas_multi_tenant.Prisma.Rows.{update_row, remove, select}
use ai_saas_multi_tenant.Rank.{Ranked}
use ai_saas_multi_tenant.Model.Data.{RowId, Issue, IssueStatus, BoardEvent}
use ai_saas_multi_tenant.Model.World.{World}
use ai_saas_multi_tenant.Model.Action.{Call}
use ai_saas_multi_tenant.Services.Audit.{record_audit}
use ai_saas_multi_tenant.Services.Issues.{in_org, set_place, place, delete_issue}

module _ {R : Type 0} (q p : R → Bool) where
  pub select-map :
      (f : R → R)
      → ((r : R) → q (f r) ≡ q r)
      → (xs : List R) → select q (map (update_row p f) xs) ≡ map (update_row p f) (select q xs)
  select-map f keep [] = refl
  select-map f keep (x ∷ xs) = elim (Bool-cases (p x)) [
    | inl hit ↦ elim (Bool-cases (q x)) [
      | inl seen ↦ rw (hit, keep x, seen, hit) (ap (λ ys. f x ∷ ys) (select-map f keep xs))
      | inr hidden ↦ rw (hit, keep x, hidden) (select-map f keep xs)
    ]
    | inr miss ↦ elim (Bool-cases (q x)) [
      | inl seen ↦ rw (miss, seen, miss) (ap (λ ys. x ∷ ys) (select-map f keep xs))
      | inr hidden ↦ rw (miss, hidden) (select-map f keep xs)
    ]
  ]

  select-remove : (xs : List R) → select q (remove p xs) ≡ remove p (select q xs)
  select-remove [] = refl
  select-remove (x ∷ xs) = elim (Bool-cases (p x)) [
    | inl hit ↦ elim (Bool-cases (q x)) [
      | inl seen ↦ rw (hit, seen, hit) (select-remove xs)
      | inr hidden ↦ rw (hit, hidden) (select-remove xs)
    ]
    | inr miss ↦ elim (Bool-cases (q x)) [
      | inl seen ↦ rw (miss, seen, miss) (ap (λ ys. x ∷ ys) (select-remove xs))
      | inr hidden ↦ rw (miss, hidden) (select-remove xs)
    ]
  ]

-- A patch of rows, and the same patch of what a query selects of them.
module _ {R S : Type 0} (s : R → S) (p : R → Bool) (q : S → Bool)
    (agree : (r : R) → q (s r) ≡ p r) where
  pub map_selected :
      (f : R → R) (g : S → S)
      → ((r : R) → p r ≡ true → g (s r) ≡ s (f r))
      → (xs : List R) → map (update_row q g) (map s xs) ≡ map s (map (update_row p f) xs)
  map_selected f g same [] = refl
  map_selected f g same (x ∷ xs) = elim (Bool-cases (p x)) [
    | inl hit ↦
        rw (hit, agree x, hit, same x hit) (ap (λ ys. s (f x) ∷ ys) (map_selected f g same xs))
    | inr miss ↦ rw (miss, agree x, miss) (ap (λ ys. s x ∷ ys) (map_selected f g same xs))
  ]

  pub remove_selected : (xs : List R) → remove q (map s xs) ≡ map s (remove p xs)
  remove_selected [] = refl
  remove_selected (x ∷ xs) = elim (Bool-cases (p x)) [
    | inl hit ↦ rw (hit, agree x, hit) (remove_selected xs)
    | inr miss ↦ rw (miss, agree x, miss) (ap (λ ys. s x ∷ ys) (remove_selected xs))
  ]

module _ {db : Prisma} where
  -- The rows that the board of a project shows.
  abbrev pub rows_of : RowId → World db → List Issue
  rows_of project w = select (λ i. i.project_id == project) (db.rows w.issues)

  pub deleted-rows :
      (id project : RowId) (w w' : World db)
      → w'.issues ≡ db.delete_many (λ j. j.id == id) w.issues
      → remove (λ j. j.id == id) (rows_of project w) ≡ rows_of project w'
  deleted-rows id project w w' table = sym (
      ap (λ t. select (λ (i : Issue). i.project_id == project) (db.rows t)) table
      ∙ ap (select (λ (i : Issue). i.project_id == project)) (db.rows-delete_many _ w.issues)
      ∙ select-remove (λ (i : Issue). i.project_id == project) (λ i. i.id == id) (db.rows w.issues))

  pub moved-rows :
      (id project : RowId) (status : IssueStatus) (t : Text) (w w' : World db)
      → w'.issues ≡ db.update_many (λ j. j.id == id) (set_place status t) w.issues
      → map (update_row (λ j. j.id == id) (set_place status t)) (rows_of project w)
        ≡ rows_of project w'
  moved-rows id project status t w w' table = sym (
      ap (λ t. select (λ (i : Issue). i.project_id == project) (db.rows t)) table
      ∙ ap (select (λ (i : Issue). i.project_id == project)) (db.rows-update_many _ _ w.issues)
      ∙ select-map (λ (i : Issue). i.project_id == project) (λ i. i.id == id) (set_place status t)
          (λ i. refl) (db.rows w.issues))

  module _ (c : Call) (org actor id : RowId) (w : World db) where
    pub place-emitted :
        (i : Issue) (status : IssueStatus) (t : Text)
        → (place c org actor i status (Ranked.rank t) w).1.emitted
          ≡ w.emitted
            ++ record {
              organization_id = org;
              project_id = i.project_id;
              event = BoardEvent.moved i.id status t;
            }
              ∷ []
    unfolding place record_audit
    place-emitted i status t = refl

    pub delete_issue-emitted :
        (i : Issue)
        → db.find_first (in_org org id) w.issues ≡ some i
        → (delete_issue c org actor id w).1.emitted
          ≡ w.emitted
            ++ record {
              organization_id = org;
              project_id = i.project_id;
              event = BoardEvent.deleted i.id;
            }
              ∷ []
    unfolding delete_issue record_audit
    delete_issue-emitted i found = ground (arith, found)
