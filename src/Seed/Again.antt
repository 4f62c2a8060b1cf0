-- ===== src/Seed/Again.antt =====
-- Seeding a database that has the demo organization already: packages/db/prisma/seed.ts.
use ai_saas_multi_tenant.Base.{
  ℕ, suc, ◌+◌, ◌<◌, ◌≡◌, refl, sym, ap, ◌∙◌, inl, inr, some, List, [], ◌∷◌, map, Text, codes,
  text_eq, arith, ◌==◌, ◌&&◌, ==_refl, Option-cases,
}
use mathlib.Core.Path.{subst}
use ai_saas_multi_tenant.Prisma.{Prisma}
use ai_saas_multi_tenant.Prisma.Rows.{In, update_row, In_map, In_append}
use ai_saas_multi_tenant.Model.Data.{RowId, Organization, Project, Issue}
use ai_saas_multi_tenant.Model.World.{World}
use ai_saas_multi_tenant.Model.Platform.{External}
use ai_saas_multi_tenant.Services.Issues.{is_project}
use ai_saas_multi_tenant.Seed.{
  SeedStrings, SeedIssue, PerStatus, counted_at, seeded_issue, upsert_user, upsert_org,
  upsert_project, upsert_issue, seed_issues, seed_loop, seed_board, seed,
}

abbrev set_counter : ℕ → Project → Project
set_counter n q = record q { issue_counter = n }

module _ (x : External) (k : SeedStrings) (ids : ℕ → RowId) {db : Prisma} where
  -- What the users' upserts leave alone.
  upsert_user-same :
      (id : RowId) (email : ℕ) (name : Text) (w : World db)
      → let v = (upsert_user x k ids id email name w).1 in
        (v.organizations ≡ w.organizations) × (v.projects ≡ w.projects) × (v.issues ≡ w.issues)
  unfolding upsert_user
  upsert_user-same id email name w = (ground arith, ground arith, ground arith)

  upsert_issue-In :
      (new i : Issue) (w : World db)
      → In i (db.rows w.issues)
      → In i (db.rows (upsert_issue x k ids new w).issues)
  unfolding upsert_issue
  upsert_issue-In new i w m =
      elim (Option-cases (
        db.find_first (λ (i : Issue). i.project_id == new.project_id && i.number == new.number)
          w.issues)) [
            | inr (j, there) ↦ rw (there, upsert_issue) m
            | inl missing ↦
                rw (missing, upsert_issue)
                  (rw (db.rows-create new w.issues) (In_append (db.rows w.issues) i new m))
          ]

  upsert_issue-projects :
      (new : Issue) (w : World db) → (upsert_issue x k ids new w).projects ≡ w.projects
  unfolding upsert_issue
  upsert_issue-projects new w = ground arith

  module _ (org project reporter : RowId) where
    seed_loop-In :
        (n : ℕ) (m : PerStatus) (ss : List SeedIssue) (w : World db) (i : Issue)
        → In i (db.rows w.issues)
        → In i (db.rows (seed_loop x k ids org project reporter n m ss w).issues)
    unfolding seed_loop
    seed_loop-In n m [] w i stored = stored
    seed_loop-In n m (s ∷ ss) w i stored =
        let new = seeded_issue x k ids org project reporter n (m s.status + 1) s in
        seed_loop-In (suc n) (counted_at s.status m) ss (upsert_issue x k ids new w) i
          (upsert_issue-In new i w stored)

    seed_loop-projects :
        (n : ℕ) (m : PerStatus) (ss : List SeedIssue) (w : World db)
        → (seed_loop x k ids org project reporter n m ss w).projects ≡ w.projects
    unfolding seed_loop
    seed_loop-projects n m [] w = refl
    seed_loop-projects n m (s ∷ ss) w =
        let new = seeded_issue x k ids org project reporter n (m s.status + 1) s in
        seed_loop-projects (suc n) (counted_at s.status m) ss (upsert_issue x k ids new w)
        ∙ upsert_issue-projects new w

  known_org :
      (a b c : RowId) (w : World db) (o : Organization)
      → db.find_first (λ (o : Organization). text_eq o.slug (codes "acme")) w.organizations ≡ some o
      → upsert_org x k ids a b c w ≡ (o, w)
  unfolding upsert_org
  known_org a b c w o found = rw (found, upsert_org)

  known_project :
      (org : RowId) (w : World db) (p : Project)
      → db.find_first (is_project org k.project_key) w.projects ≡ some p
      → upsert_project x k ids org w ≡ (p, w)
  unfolding upsert_project
  known_project org w p found = rw (found, upsert_project)

  module _ (o : Organization) (p : Project) where
    -- The demo organization and its project are stored.
    abbrev pub IsSeeded : World db → Type 0
    IsSeeded w =
        (db.find_first (λ (o : Organization). text_eq o.slug (codes "acme")) w.organizations
          ≡ some o)
        × (db.find_first (is_project o.id k.project_key) w.projects ≡ some p)

    -- The issues stay, and the counter is set to the number of the demo issues.
    abbrev Reseeded : World db → World db → Type 0
    Reseeded w v =
        ((i : Issue) → In i (db.rows w.issues) → In i (db.rows v.issues))
        × (v.projects ≡ db.update_many (λ q. q.id == p.id) (set_counter 7) w.projects)

    seed_board-Reseeded :
        (a b c : RowId) (w : World db) → IsSeeded w → Reseeded w (seed_board x k ids a b c w)
    unfolding seed_board
    seed_board-Reseeded a b c w (org, project) =
        let issues = seed_issues a b c in
        rw (known_org a b c w o org, known_project o.id w p project)
          (
            seed_loop-In o.id p.id a 0 (λ s. 0) issues w,
            ap (db.update_many (λ q. q.id == p.id) (set_counter 7))
                (seed_loop-projects o.id p.id a 0 (λ s. 0) issues w),
          )

    seed-Reseeded : (w : World db) → IsSeeded w → Reseeded w (seed x k ids w)
    unfolding seed
    seed-Reseeded w (org, project) =
        let s1 = upsert_user x k ids (ids 0) k.owner_email (codes "Olivia Owner") w in
        let s2 = upsert_user x k ids (ids 1) k.alice_email (codes "Alice Admin") s1.1 in
        let s3 = upsert_user x k ids (ids 2) k.bob_email (codes "Bob Member") s2.1 in
        let (org1, project1, issues1) =
          upsert_user-same (ids 0) k.owner_email (codes "Olivia Owner") w in
        let (org2, project2, issues2) =
          upsert_user-same (ids 1) k.alice_email (codes "Alice Admin") s1.1 in
        let (org3, project3, issues3) =
          upsert_user-same (ids 2) k.bob_email (codes "Bob Member") s2.1 in
        let by_slug = λ (o : Organization). text_eq o.slug (codes "acme") in
        let seeded : IsSeeded s3.1 = (
          subst (λ t. db.find_first by_slug t ≡ some o) (sym (org3 ∙ org2 ∙ org1)) org,
          subst (λ t. db.find_first (is_project o.id k.project_key) t ≡ some p)
              (sym (project3 ∙ project2 ∙ project1)) project,
        ) in
        let (kept, counter) = seed_board-Reseeded s1.0.id s2.0.id s3.0.id s3.1 seeded in
        (
          λ i m. kept i (subst (λ t. In i (db.rows t)) (sym (issues3 ∙ issues2 ∙ issues1)) m),
          counter
              ∙ ap (db.update_many (λ q. q.id == p.id) (set_counter 7))
                  (project3 ∙ project2 ∙ project1),
        )

    -- Seeding a database again that has the demo project keeps each of its issues, but when the number
    -- of one is greater than 7, a row of its project has a smaller counter than that number afterwards.
    pub seed-resets :
        (w : World db) (i : Issue)
        → IsSeeded w
        → In i (db.rows w.issues)
        → i.project_id ≡ p.id
        → 7 < i.number
        → In i (db.rows (seed x k ids w).issues)
          × ((q : Project) × In q (db.rows (seed x k ids w).projects)
              × (q.id ≡ i.project_id)
              × (q.issue_counter < i.number))
    seed-resets w i seeded stored at big =
        let (kept, projects) = seed-Reseeded w seeded in
        let (in_p, _) = db.find_first-some (is_project o.id k.project_key) w.projects seeded.1 in
        let f = update_row (λ (q : Project). q.id == p.id) (set_counter 7) in
        let reset : f p ≡ set_counter 7 p = rw (==_refl p.id) in
        let in_q : In (set_counter 7 p) (db.rows (seed x k ids w).projects) =
          subst (λ t. In (set_counter 7 p) (db.rows t)) (sym projects)
            (rw (db.rows-update_many (λ q. q.id == p.id) (set_counter 7) w.projects) (
              subst (λ q. In q (map f (db.rows w.projects))) reset
                (In_map f (db.rows w.projects) p in_p))) in
        (kept i stored, (set_counter 7 p, in_q, sym at, big))
