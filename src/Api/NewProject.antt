-- ===== src/Api/NewProject.antt =====
-- The board under `create` of projects/projects.service.ts.
use ai_saas_multi_tenant.Base.{◌≡◌, sym, ap, ◌∙◌, ◌⊎◌, inl, inr, arith, Option-cases, Bool-cases}
use mathlib.Core.Path.{subst}
use ai_saas_multi_tenant.Prisma.{Prisma}
use ai_saas_multi_tenant.Prisma.Rows.{In, append-In, In_append}
use ai_saas_multi_tenant.Prisma.Unique.{Once, create-Once}
use ai_saas_multi_tenant.Model.Data.{RowId, Project}
use ai_saas_multi_tenant.Model.World.{World}
use ai_saas_multi_tenant.Model.Action.{Call}
use ai_saas_multi_tenant.Services.Audit.{record_audit}
use ai_saas_multi_tenant.Services.Projects
use ai_saas_multi_tenant.Services.Projects.{is_foreign_team}
use ai_saas_multi_tenant.Services.Projects.Keys.{create-keys}
use ai_saas_multi_tenant.Services.Issues.{is_project}
use ai_saas_multi_tenant.Services.Issues.Numbers.{Counted, UniqueProject}
use ai_saas_multi_tenant.Api.Facets.{IssuesOwned, BoardHealthy, BoardHealthy-same, IsFresh}

module _ {db : Prisma} (w : World db) (h : BoardHealthy db w) where
  module _ (c : Call) (fresh : IsFresh db c w) (org actor : RowId)
      (input : Projects.CreateProjectInput) where
    abbrev with_project : World db
    with_project = (Projects.create c org actor input w).1

    create_project-issues : (with_project.issues ≡ w.issues) × (with_project.teams ≡ w.teams)
    unfolding Projects.create is_foreign_team record_audit
    create_project-issues = (ground arith, ground arith)

    -- The projects are as before, or have one more, empty and under a fresh identifier.
    pub create_project-projects :
        (with_project.projects ≡ w.projects)
        ⊎ (with_project.projects ≡ db.create (Projects.new_project (c.ids 0) org input) w.projects)
    unfolding Projects.create is_foreign_team record_audit
    create_project-projects =
        elim (Option-cases (db.find_first (is_project org input.key) w.projects)) [
          | inr (p, found) ↦ inl (ground (arith, found))
          | inl new ↦ elim (Bool-cases (is_foreign_team org input.team_id w)) [
            | inl foreign ↦ inl (ground (arith, new, foreign))
            | inr own ↦ inr (ground (arith, new, own))
          ]
        ]

    module _
        (projects : with_project.projects
          ≡ db.create (Projects.new_project (c.ids 0) org input) w.projects) where
      new_or_old :
          (p : Project)
          → In p (db.rows with_project.projects)
          → In p (db.rows w.projects) ⊎ (p ≡ Projects.new_project (c.ids 0) org input)
      new_or_old p m =
          append-In (db.rows w.projects)
            (rw (db.rows-create _ w.projects) at (subst (λ t. In p (db.rows t)) projects m))

      with_project-Counted : Counted db with_project
      with_project-Counted i p m n same =
          let old_issue = subst (λ t. In i (db.rows t)) create_project-issues.0 m in
          elim (new_or_old p n) [
            | inl old ↦ h.counted i p old_issue old same
            | inr is_new ↦
                let (q, in_q, is_q, _) = h.owned i old_issue in
                absurd (fresh.projects 0 q in_q (is_q ∙ same ∙ ap (λ (p : Project). p.id) is_new))
          ]

      with_project-UniqueProject : UniqueProject db with_project
      with_project-UniqueProject =
          subst (λ t. Once (λ (p : Project). p.id) (db.rows t)) (sym projects)
            (create-Once (λ (p : Project). p.id) db w.projects h.project_ids _ (fresh.projects 0))

      with_project-IssuesOwned : IssuesOwned db with_project
      with_project-IssuesOwned i m =
          let (p, n, is, of) =
            h.owned i (subst (λ t. In i (db.rows t)) create_project-issues.0 m) in
          (
            p,
            subst (λ t. In p (db.rows t)) (sym projects)
                (rw (db.rows-create _ w.projects) (In_append (db.rows w.projects) p _ n)),
            is,
            of,
          )

    pub create_project-BoardHealthy : BoardHealthy db with_project
    create_project-BoardHealthy =
        let (issues, teams) = create_project-issues in
        let (keys, owned_teams) = create-keys c org actor input w h.keys h.teams in
        elim create_project-projects [
          | inl same ↦ BoardHealthy-same w with_project issues same teams h
          | inr projects ↦ record {
            ranks = rw issues h.ranks;
            counted = with_project-Counted projects;
            numbered = rw issues h.numbered;
            project_ids = with_project-UniqueProject projects;
            issue_ids = rw issues h.issue_ids;
            owned = with_project-IssuesOwned projects;
            keys = keys;
            teams = owned_teams;
          }
        ]
