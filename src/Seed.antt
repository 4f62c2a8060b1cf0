-- ===== src/Seed.antt =====
-- The demo data: packages/db/prisma/seed.ts. The strings that are only compared stand as numbers, which
-- are a parameter, and each row that is created takes an identifier of its own.
pub mod Again
use Prim.Native.Nat.{◌%◌}
use ai_saas_multi_tenant.Base.{
  ℕ, zero, suc, ◌+◌, ◌-◌, ◌*◌, ◌/◌, Bool, true, false, ◌&&◌, Option, none, some, List, [], ◌∷◌,
  ◌++◌, Text, codes, text_eq, ltb, ◌==◌, length, if◌then◌else◌,
}
use ai_saas_multi_tenant.Prisma.{Prisma}
use ai_saas_multi_tenant.Rbac.{owner, admin, member}
use ai_saas_multi_tenant.Model.Data.{
  RowId, User, Organization, Membership, Team, Project, Issue, IssueStatus, IssuePriority,
  same_status, Subscription,
}
use ai_saas_multi_tenant.Model.World.{World}
use ai_saas_multi_tenant.Model.Platform.{External}
use ai_saas_multi_tenant.Model.Action.{Action, pure, gets, modify, ◌>>=◌, ◌>>◌}
use ai_saas_multi_tenant.Services.Orgs.{new_membership, new_subscription}
use ai_saas_multi_tenant.Services.Issues.{is_project}

-- The e-mail addresses, the password and the project key.
pub record SeedStrings : Type 0 where
  pub owner_email : ℕ
  pub alice_email : ℕ
  pub bob_email : ℕ
  pub password : ℕ
  pub project_key : ℕ

-- `toString(36)`, on fuel
abbrev pub base36_char : ℕ → ℕ
base36_char d = if ltb d 10 then 48 + d else 87 + d

unfoldable pub to_base36 : ℕ → ℕ → Text
to_base36 zero n = []
to_base36 (suc fuel) n =
    let front = to_base36 fuel (n / 36) in
    if ltb n 36 then base36_char n ∷ [] else front ++ base36_char (n % 36) ∷ []

abbrev pub zeros : ℕ → Text
zeros zero = []
zeros (suc n) = b'0' ∷ zeros n

-- `padStart(6, '0')`
abbrev pub pad_start : ℕ → Text → Text
pad_start width t = zeros (width - length t) ++ t

unfoldable pub rank_at : ℕ → Text
unfolding to_base36
rank_at i = pad_start 6 (to_base36 (suc (i * 1000)) (i * 1000))

pub record SeedIssue : Type 0 where
  pub title : Text
  pub status : IssueStatus
  pub priority : IssuePriority
  pub assignee_id : Option RowId

abbrev pub seed_issue : Text → IssueStatus → IssuePriority → Option RowId → SeedIssue
seed_issue title status priority assignee = record {
  title = title;
  status = status;
  priority = priority;
  assignee_id = assignee;
}

abbrev pub seed_issues : RowId → RowId → RowId → List SeedIssue
seed_issues owner_id alice bob =
    seed_issue (codes "Set up multi-tenant data model") IssueStatus.done IssuePriority.high
      (some alice)
    ∷ seed_issue (codes "Implement TenantGuard + RbacGuard") IssueStatus.in_progress
        IssuePriority.urgent (some alice)
    ∷ seed_issue (codes "Kanban drag-and-drop with optimistic UI") IssueStatus.todo
        IssuePriority.high (some bob)
    ∷ seed_issue (codes "WebSocket presence + live board sync") IssueStatus.todo
        IssuePriority.medium (some bob)
    ∷ seed_issue (codes "Stripe billing + webhook reconciliation") IssueStatus.backlog
        IssuePriority.medium none
    ∷ seed_issue (codes "Notification fan-out via BullMQ") IssueStatus.backlog IssuePriority.low
        none
    ∷ seed_issue (codes "Audit log for every mutation") IssueStatus.in_review IssuePriority.medium
        (some owner_id)
    ∷ []

-- `perStatusIndex`, where a missing key is 0
abbrev pub PerStatus : Type 0
PerStatus = IssueStatus → ℕ

abbrev pub counted_at : IssueStatus → PerStatus → PerStatus
counted_at status m s = if same_status s status then m status + 1 else m s

module _ (x : External) (k : SeedStrings) (ids : ℕ → RowId) where
  abbrev pub seed_user : RowId → ℕ → Text → User
  seed_user id email name = record {
    id = id;
    email = email;
    password_hash = some (x.bcrypt_hash k.password);
    name = name;
    avatar_url = none;
    email_on_assigned = true;
    email_on_mentioned = true;
    email_on_comment = true;
  }

  -- `user.upsert` with an empty `update`
  unfoldable pub upsert_user : {db : Prisma} → RowId → ℕ → Text → World db → User × World db
  upsert_user {db} id email name w = elim (db.find_first (λ (u : User). u.email == email) w.users) [
    | some u ↦ (u, w)
    | none ↦
        (seed_user id email name, record w { users = db.create (seed_user id email name) w.users })
  ]

  abbrev pub seed_org : Organization
  seed_org = record { id = ids 3; slug = codes "acme"; name = codes "Acme Inc." }

  -- `organization.upsert`, with the rows that it nests
  unfoldable pub upsert_org :
      {db : Prisma} → RowId → RowId → RowId → World db → Organization × World db
  upsert_org {db} owner_id alice_id bob_id w =
      elim (db.find_first (λ (o : Organization). text_eq o.slug (codes "acme")) w.organizations) [
        | some o ↦ (o, w)
        | none ↦ (
          seed_org,
          record w {
            organizations = db.create seed_org w.organizations;
            subscriptions =
                db.create (record (new_subscription (ids 4) (ids 3)) { seats = 5 }) w.subscriptions;
            memberships = db.create (new_membership (ids 7) bob_id (ids 3) member) (
                db.create (new_membership (ids 6) alice_id (ids 3) admin)
                  (db.create (new_membership (ids 5) owner_id (ids 3) owner) w.memberships));
            teams = db.create (record { id = ids 8; organization_id = ids 3 }) w.teams;
          },
        )
      ]

  -- `org.teams[0]?.id`
  abbrev pub first_team : {db : Prisma} → RowId → World db → Option RowId
  first_team {db} org w = elim (db.find_first (λ (t : Team). t.organization_id == org) w.teams) [
    | none ↦ none
    | some t ↦ some t.id
  ]

  abbrev pub seed_project : RowId → Option RowId → Project
  seed_project org team = record {
    id = ids 9;
    organization_id = org;
    team_id = team;
    key = k.project_key;
    name = codes "Platform";
    description = some (codes "The core product board.");
    issue_counter = 0;
    archived_at = none;
  }

  unfoldable pub upsert_project : {db : Prisma} → RowId → World db → Project × World db
  upsert_project {db} org w = elim (db.find_first (is_project org k.project_key) w.projects) [
    | some p ↦ (p, w)
    | none ↦ (
      seed_project org (first_team org w),
      record w { projects = db.create (seed_project org (first_team org w)) w.projects },
    )
  ]

  -- `i` counts from 0, and a number is `i + 1`.
  abbrev pub seeded_issue : RowId → RowId → RowId → ℕ → ℕ → SeedIssue → Issue
  seeded_issue org project reporter i index s = record {
    id = ids (10 + i);
    organization_id = org;
    project_id = project;
    number = i + 1;
    title = s.title;
    description = none;
    status = s.status;
    priority = s.priority;
    rank = rank_at index;
    reporter_id = reporter;
    assignee_id = s.assignee_id;
    due_date = none;
    labels = [];
  }

  unfoldable pub upsert_issue : {db : Prisma} → Issue → World db → World db
  upsert_issue {db} new w =
      elim (db.find_first (λ (i : Issue). i.project_id == new.project_id && i.number == new.number)
        w.issues) [ some i ↦ w | none ↦ record w { issues = db.create new w.issues } ]

  unfoldable pub seed_loop :
      {db : Prisma} → RowId → RowId → RowId → ℕ → PerStatus → List SeedIssue → World db → World db
  seed_loop org project reporter i m [] w = w
  seed_loop org project reporter i m (s ∷ ss) w =
      let index = m s.status + 1 in
      seed_loop org project reporter (suc i) (counted_at s.status m) ss
        (upsert_issue (seeded_issue org project reporter i index s) w)

  -- `issueCounter: seedIssues.length`
  abbrev pub reset_counter : {db : Prisma} → RowId → ℕ → World db → World db
  reset_counter {db} project n w = record w {
    projects =
        db.update_many (λ p. p.id == project) (λ p. record p { issue_counter = n }) w.projects;
  }

  -- What follows the users, given their ids.
  unfoldable pub seed_board : {db : Prisma} → RowId → RowId → RowId → World db → World db
  seed_board {db} owner_id alice bob w =
      let (org, w1) = upsert_org owner_id alice bob w in
      let (project, w2) = upsert_project org.id w1 in
      let issues = seed_issues owner_id alice bob in
      reset_counter project.id (length issues)
        (seed_loop org.id project.id owner_id 0 (λ s. 0) issues w2)

  -- `main`; the users are created at the same time, here one after the other.
  unfoldable pub seed : {db : Prisma} → World db → World db
  seed {db} w =
      let (owner_row, w1) = upsert_user (ids 0) k.owner_email (codes "Olivia Owner") w in
      let (alice, w2) = upsert_user (ids 1) k.alice_email (codes "Alice Admin") w1 in
      let (bob, w3) = upsert_user (ids 2) k.bob_email (codes "Bob Member") w2 in
      seed_board owner_row.id alice.id bob.id w3
