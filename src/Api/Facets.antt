-- ===== src/Api/Facets.antt =====
-- What holds of the tables between requests: the unique columns of packages/db/prisma/schema.prisma
-- that the services look after, the numbers and the ranks of issues, and whose row is whose.
use ai_saas_multi_tenant.Base.{ℕ, ◌≡◌, ◌≢◌}
use ai_saas_multi_tenant.Prisma.{Prisma}
use ai_saas_multi_tenant.Prisma.Rows.{In}
use ai_saas_multi_tenant.Prisma.Unique.{Once}
use ai_saas_multi_tenant.Model.Data.{
  RowId, User, RefreshToken, Organization, Membership, Invite, Project, Issue, Subscription,
}
use ai_saas_multi_tenant.Model.World.{World}
use ai_saas_multi_tenant.Model.Action.{Call}
use ai_saas_multi_tenant.Services.Issues.Ranks.{RanksValid}
use ai_saas_multi_tenant.Services.Issues.Numbers.{Counted, NumberedOnce, UniqueProject}
use ai_saas_multi_tenant.Services.Issues.Tenancy.{UniqueIssue}
use ai_saas_multi_tenant.Services.Projects.Keys.{KeysUnique, TeamsOwned}
use ai_saas_multi_tenant.Auth.Families.{OneActive}

-- `@@unique([userId, organizationId])`
abbrev pub member_key : Membership → RowId × RowId
member_key m = (m.user_id, m.organization_id)

-- `@@unique([organizationId, email])`
abbrev pub invite_key : Invite → RowId × ℕ
invite_key i = (i.organization_id, i.email)

module _ (db : Prisma) where
  -- The project of an issue is stored, and of the issue's organization.
  abbrev pub IssuesOwned : World db → Type 0
  IssuesOwned w =
      (i : Issue)
      → In i (db.rows w.issues)
      → (p : Project) × In p (db.rows w.projects)
        × (p.id ≡ i.project_id)
        × (p.organization_id ≡ i.organization_id)

  pub record BoardHealthy (w : World db) : Type 0 where
    pub ranks : RanksValid db w
    pub counted : Counted db w
    pub numbered : NumberedOnce db w
    pub project_ids : UniqueProject db w
    pub issue_ids : UniqueIssue db w
    pub owned : IssuesOwned w
    pub keys : KeysUnique db w
    pub teams : TeamsOwned db w

  pub record OrgsHealthy (w : World db) : Type 0 where
    -- `slug String @unique`
    pub slugs : Once (λ (o : Organization). o.slug) (db.rows w.organizations)
    pub members : Once member_key (db.rows w.memberships)
    pub invites : Once invite_key (db.rows w.invites)
    -- `organizationId String @unique`
    pub subscriptions : Once (λ (s : Subscription). s.organization_id) (db.rows w.subscriptions)

  pub record AccountsHealthy (w : World db) : Type 0 where
    -- `email String @unique`
    pub emails : Once (λ (u : User). u.email) (db.rows w.users)
    pub one_active : OneActive db w

  pub record Healthy (w : World db) : Type 0 where
    pub board : BoardHealthy w
    pub orgs : OrgsHealthy w
    pub accounts : AccountsHealthy w

  -- The identifiers that a call creates are used nowhere.
  pub record IsFresh (c : Call) (w : World db) : Type 0 where
    pub projects : (n : ℕ) (p : Project) → In p (db.rows w.projects) → p.id ≢ c.ids n
    pub issues : (n : ℕ) (i : Issue) → In i (db.rows w.issues) → i.id ≢ c.ids n
    pub memberships :
        (n : ℕ) (m : Membership) → In m (db.rows w.memberships) → m.organization_id ≢ c.ids n
    pub subscriptions :
        (n : ℕ) (s : Subscription) → In s (db.rows w.subscriptions) → s.organization_id ≢ c.ids n
    pub tokens :
        (n : ℕ) (t : RefreshToken) → In t (db.rows w.refresh_tokens) → t.family_id ≢ c.ids n

module _ {db : Prisma} (w v : World db) where
  -- The facets hold on where the tables that they read are as before.
  pub BoardHealthy-same :
      v.issues ≡ w.issues
      → v.projects ≡ w.projects
      → v.teams ≡ w.teams
      → BoardHealthy db w
      → BoardHealthy db v
  BoardHealthy-same issues projects teams h = record {
    ranks = rw issues h.ranks;
    counted = rw (issues, projects) h.counted;
    numbered = rw issues h.numbered;
    project_ids = rw projects h.project_ids;
    issue_ids = rw issues h.issue_ids;
    owned = rw (issues, projects) h.owned;
    keys = rw projects h.keys;
    teams = rw (projects, teams) h.teams;
  }

  pub OrgsHealthy-same :
      v.organizations ≡ w.organizations
      → v.memberships ≡ w.memberships
      → v.invites ≡ w.invites
      → v.subscriptions ≡ w.subscriptions
      → OrgsHealthy db w
      → OrgsHealthy db v
  OrgsHealthy-same organizations memberships invites subscriptions h = record {
    slugs = rw organizations h.slugs;
    members = rw memberships h.members;
    invites = rw invites h.invites;
    subscriptions = rw subscriptions h.subscriptions;
  }

  pub AccountsHealthy-same :
      v.users ≡ w.users
      → v.refresh_tokens ≡ w.refresh_tokens
      → AccountsHealthy db w
      → AccountsHealthy db v
  AccountsHealthy-same users tokens h = record {
    emails = rw users h.emails;
    one_active = rw tokens h.one_active;
  }
