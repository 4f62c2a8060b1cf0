-- ===== src/Services/Projects.antt =====
-- Projects: apps/api/src/modules/projects/projects.service.ts.
pub mod Keys
use ai_saas_multi_tenant.Base.{
  ℕ, Bool, true, false, not, ◌&&◌, Option, none, some, List, Text, ◌==◌, if◌then◌else◌,
}
use ai_saas_multi_tenant.Prisma.{Prisma}
use ai_saas_multi_tenant.Prisma.Rows.{select}
use ai_saas_multi_tenant.Model.Data.{RowId, Team, Project, AuditAction, Metadata}
use ai_saas_multi_tenant.Model.World.{World}
use ai_saas_multi_tenant.Model.Action.{
  Action, Call, bad_request, not_found, pure, gets, or_throw, throw_if, modify, ◌>>=◌, ◌>>◌,
}
use ai_saas_multi_tenant.Services.Audit.{audit_entry, record_audit}
use ai_saas_multi_tenant.Services.Orgs.{is_found}
use ai_saas_multi_tenant.Services.Issues.{is_project}

pub record CreateProjectInput : Type 0 where
  pub key : ℕ
  pub name : Text
  pub description : Option Text
  pub team_id : Option RowId

abbrev pub new_project : RowId → RowId → CreateProjectInput → Project
new_project id org input = record {
  id = id;
  organization_id = org;
  team_id = input.team_id;
  key = input.key;
  name = input.name;
  description = input.description;
  issue_counter = 0;
  archived_at = none;
}

abbrev pub is_team : RowId → RowId → Team → Bool
is_team org id t = t.id == id && t.organization_id == org

module _ {db : Prisma} where
  unfoldable pub list : RowId → World db → List Project
  list org w =
      select (λ p. p.organization_id == org && not (is_found p.archived_at)) (db.rows w.projects)

  unfoldable pub get_by_key : RowId → ℕ → Action db Project
  get_by_key org key = do
    or_throw not_found (← gets (λ w. db.find_first (is_project org key) w.projects))

  -- A team that is supplied must belong to the tenant.
  unfoldable pub is_foreign_team : RowId → Option RowId → World db → Bool
  is_foreign_team org none w = false
  is_foreign_team org (some id) w = not (is_found (db.find_first (is_team org id) w.teams))

  unfoldable pub create : Call → RowId → RowId → CreateProjectInput → Action db Project
  create c org actor input = do
    clash ← gets (λ w. db.find_first (is_project org input.key) w.projects)
    throw_if (is_found clash) bad_request
    foreign ← gets (is_foreign_team org input.team_id)
    throw_if foreign bad_request
    let p = new_project (c.ids 0) org input
    modify (λ w. record w { projects = db.create p w.projects })
    record_audit c (audit_entry org actor AuditAction.project_created p.id (Metadata.about p.key))
    pure p
