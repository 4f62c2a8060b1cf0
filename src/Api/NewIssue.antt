-- ===== src/Api/NewIssue.antt =====
-- The board under `create` of issues/issues.service.ts.
use ai_saas_multi_tenant.Base.{ℕ, ◌≡◌, refl, sym, ap, ◌∙◌, inl, inr, arith, ◌==◌}
use mathlib.Core.Path.{subst}
use ai_saas_multi_tenant.Prisma.{Prisma}
use ai_saas_multi_tenant.Prisma.Rows.{In, update_row, map-In, append-In, In_map}
use ai_saas_multi_tenant.Model.Data.{RowId, Project, Issue}
use ai_saas_multi_tenant.Model.World.{World}
use ai_saas_multi_tenant.Model.Action.{Call, Result}
use ai_saas_multi_tenant.Services.Audit.{record_audit}
use ai_saas_multi_tenant.Services.Notifications.{enqueue}
use ai_saas_multi_tenant.Services.Projects.Keys.{KeysUnique, TeamsOwned}
use ai_saas_multi_tenant.Services.Issues.{
  CreateIssueInput, is_project, bump, insert_issue, announce, notify_assignee, create,
}
use ai_saas_multi_tenant.Services.Issues.Creation.{create_cases}
use ai_saas_multi_tenant.Services.Issues.Numbers.{UniqueProject, create-numbers}
use ai_saas_multi_tenant.Services.Issues.Ranks.{create-RanksValid}
use ai_saas_multi_tenant.Prisma.Unique.{Once, create-Once}
use ai_saas_multi_tenant.Api.Facets.{IsFresh, IssuesOwned, BoardHealthy}

module _ {db : Prisma} (w : World db) (h : BoardHealthy db w) where
  module _ (c : Call) (fresh : IsFresh db c w) (org actor : RowId) (key : ℕ)
      (input : CreateIssueInput) where
    create-teams : (create c org actor key input w).1.teams ≡ w.teams
    unfolding create insert_issue announce notify_assignee record_audit enqueue
    create-teams = ground arith

    abbrev after : World db
    after = (create c org actor key input w).1

    abbrev counted_up : RowId → Project → Project
    counted_up id = update_row (λ (q : Project). q.id == id) bump

    counted_up_kept :
        (id : RowId) (p : Project)
        → ((counted_up id p).id ≡ p.id)
          × ((counted_up id p).organization_id ≡ p.organization_id)
          × ((counted_up id p).key ≡ p.key)
          × ((counted_up id p).team_id ≡ p.team_id)
    counted_up_kept id p = (ground arith, ground arith, ground arith, ground arith)

    module _ (id : RowId)
        (projects : after.projects ≡ db.update_many (λ q. q.id == id) bump w.projects) where
      project_before :
          (s : Project)
          → In s (db.rows after.projects)
          → (p : Project) × In p (db.rows w.projects) × (s ≡ counted_up id p)
      project_before s m =
          map-In (counted_up id) (db.rows w.projects) (
            rw (db.rows-update_many _ bump w.projects) at
              (subst (λ t. In s (db.rows t)) projects m))

      project_after :
          (p : Project) → In p (db.rows w.projects) → In (counted_up id p) (db.rows after.projects)
      project_after p m =
          subst (λ t. In (counted_up id p) (db.rows t)) (sym projects)
            (rw (db.rows-update_many _ bump w.projects) (In_map (counted_up id) _ p m))

      after-UniqueProject : UniqueProject db after
      after-UniqueProject s t m n same =
          let (p, in_p, is_p) = project_before s m in
          let (q, in_q, is_q) = project_before t n in
          let ids : p.id ≡ q.id =
            sym (counted_up_kept id p).0
            ∙ sym (ap (λ (p : Project). p.id) is_p)
            ∙ same
            ∙ ap (λ (p : Project). p.id) is_q
            ∙ (counted_up_kept id q).0 in
          is_p ∙ ap (counted_up id) (h.project_ids p q in_p in_q ids) ∙ sym is_q

      after-KeysUnique : KeysUnique db after
      after-KeysUnique s t m n same_org same_key =
          let (p, in_p, is_p) = project_before s m in
          let (q, in_q, is_q) = project_before t n in
          let (_, org_p, key_p, _) = counted_up_kept id p in
          let (_, org_q, key_q, _) = counted_up_kept id q in
          let orgs : p.organization_id ≡ q.organization_id =
            sym org_p
            ∙ sym (ap (λ (p : Project). p.organization_id) is_p)
            ∙ same_org
            ∙ ap (λ (p : Project). p.organization_id) is_q
            ∙ org_q in
          let keys : p.key ≡ q.key =
            sym key_p
            ∙ sym (ap (λ (p : Project). p.key) is_p)
            ∙ same_key
            ∙ ap (λ (p : Project). p.key) is_q
            ∙ key_q in
          is_p ∙ ap (counted_up id) (h.keys p q in_p in_q orgs keys) ∙ sym is_q

      after-TeamsOwned : TeamsOwned db after
      after-TeamsOwned s team m has =
          let (p, in_p, is_p) = project_before s m in
          let (_, org_p, _, team_p) = counted_up_kept id p in
          let (t, in_t, is_t, of_t) =
            h.teams p team in_p (sym team_p ∙ sym (ap (λ (p : Project). p.team_id) is_p) ∙ has) in
          (
            t,
            subst (λ ts. In t (db.rows ts)) (sym create-teams) in_t,
            is_t,
            of_t ∙ sym (ap (λ (p : Project). p.organization_id) is_p ∙ org_p),
          )

      after-IssuesOwned :
          (p : Project) (new : Issue)
          → In p (db.rows w.projects)
          → p.id ≡ new.project_id
          → p.organization_id ≡ new.organization_id
          → after.issues ≡ db.create new w.issues
          → IssuesOwned db after
      after-IssuesOwned p new in_p is_p of_p issues i m =
          elim (append-In (db.rows w.issues)
            (rw (db.rows-create new w.issues) at (subst (λ t. In i (db.rows t)) issues m))) [
              | inl old ↦
                  let (q, in_q, is_q, of_q) = h.owned i old in
                  let (id_q, org_q, _, _) = counted_up_kept id q in
                  (counted_up id q, project_after q in_q, id_q ∙ is_q, org_q ∙ of_q)
              | inr is_new ↦
                  let (id_p, org_p, _, _) = counted_up_kept id p in
                  (
                    counted_up id p,
                    project_after p in_p,
                    id_p ∙ is_p ∙ sym (ap (λ (i : Issue). i.project_id) is_new),
                    org_p ∙ of_p ∙ sym (ap (λ (i : Issue). i.organization_id) is_new),
                  )
            ]

    pub create-BoardHealthy : BoardHealthy db after
    create-BoardHealthy = elim (create_cases c org actor key input w) [
      | inl (e, unchanged) ↦
          subst (λ (o : Result Issue × World db). BoardHealthy db o.1) (sym unchanged) h
      | inr (p, found, (q, has, linked, (r, bottom, (_, issues, projects)))) ↦
          let (counted, numbered) =
            create-numbers c org actor key input w h.counted h.numbered h.project_ids in
          let (in_p, hit) = db.find_first-some (is_project org key) w.projects found in
          record {
            ranks = create-RanksValid w h.ranks c org actor key input;
            counted = counted;
            numbered = numbered;
            project_ids = after-UniqueProject p.id projects;
            issue_ids =
                subst (λ t. Once (λ (i : Issue). i.id) (db.rows t)) (sym issues)
                  (create-Once (λ (i : Issue). i.id) db w.issues h.issue_ids _ (fresh.issues 0));
            owned = after-IssuesOwned p.id projects p _ in_p refl (ground (arith, hit)) issues;
            keys = after-KeysUnique p.id projects;
            teams = after-TeamsOwned p.id projects;
          }
    ]
