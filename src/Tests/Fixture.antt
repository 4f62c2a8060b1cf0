-- ===== src/Tests/Fixture.antt =====
-- A tenant with two members, one project and one issue, over tables that are lists.
use ai_saas_multi_tenant.Base.{◌+◌, true, false, none, some, [], ◌∷◌, ◌==◌}
use ai_saas_multi_tenant.Rbac.{owner, member}
use ai_saas_multi_tenant.Prisma.Memory.{memory}
use ai_saas_multi_tenant.Model.Data.{
  User, DeviceInfo, RefreshToken, Membership, Invite, Project, Issue, IssueStatus, IssuePriority,
  Subscription, SubscriptionPlan, SubscriptionStatus, NotificationType, NotificationJob,
}
use ai_saas_multi_tenant.Model.World.{World}
use ai_saas_multi_tenant.Model.Platform.{External, Env}
use ai_saas_multi_tenant.Model.Action.{Call}

abbrev pub external : External
external = record {
  sha256 = λ n. n + 1000;
  lower_case = λ n. n;
  lower_text = λ t. t;
  bcrypt_hash = λ n. n;
  bcrypt_compare = λ password hash. password == hash;
  jwt_sign = λ sub email secret ttl. sub;
  id_text = λ i. (i + 48) ∷ [];
}

abbrev pub env : Env
env = record {
  jwt_access_secret = 1;
  jwt_access_ttl = 900;
  jwt_refresh_ttl = 1000;
  stripe_configured = true;
  stripe_price_pro = some 61;
  stripe_price_business = some 62;
}

abbrev pub call : Call
call = record { now = 100; ids = λ n. n + 50; random = 7; audit_up = true }

abbrev pub later : Call
later = record { now = 150; ids = λ n. n + 60; random = 8; audit_up = true }

abbrev pub device : DeviceInfo
device = record { user_agent = none; ip = none }

abbrev pub ada : User
ada = record {
  id = 1;
  email = 11;
  password_hash = some 5;
  name = 65 ∷ [];
  avatar_url = none;
  email_on_assigned = true;
  email_on_mentioned = false;
  email_on_comment = false;
}

abbrev pub token : RefreshToken
token = record {
  id = 30;
  user_id = 1;
  token_hash = 1003;
  family_id = 9;
  expires_at = 200;
  revoked_at = none;
  device = device;
}

abbrev pub revoked_token : RefreshToken
revoked_token = record token { revoked_at = some 90 }

abbrev pub owner_row : Membership
owner_row = record { id = 20; user_id = 1; organization_id = 4; role = owner }

abbrev pub member_row : Membership
member_row = record { id = 21; user_id = 2; organization_id = 4; role = member }

abbrev pub invite : Invite
invite = record {
  id = 40;
  organization_id = 4;
  email = 13;
  role = member;
  token_hash = 1006;
  invited_by_id = 1;
  expires_at = 200;
  accepted_at = none;
}

abbrev pub project : Project
project = record {
  id = 60;
  organization_id = 4;
  team_id = none;
  key = 5;
  name = 80 ∷ [];
  description = none;
  issue_counter = 1;
  archived_at = none;
}

abbrev pub issue : Issue
issue = record {
  id = 70;
  organization_id = 4;
  project_id = 60;
  number = 1;
  title = 84 ∷ [];
  description = none;
  status = IssueStatus.todo;
  priority = IssuePriority.none;
  rank = 86 ∷ [];
  reporter_id = 1;
  assignee_id = none;
  due_date = none;
  labels = [];
}

abbrev pub subscription : Subscription
subscription = record {
  id = 80;
  organization_id = 4;
  stripe_customer_id = some 81;
  stripe_subscription_id = none;
  plan = SubscriptionPlan.free;
  status = SubscriptionStatus.active;
  seats = 1;
  current_period_end = none;
  cancel_at_period_end = false;
}

abbrev pub job : NotificationJob
job = record {
  organization_id = 4;
  recipient_id = 1;
  actor_id = some 2;
  type = NotificationType.issue_assigned;
  payload = record { issue_id = 70; number = 1; title = none };
}

abbrev pub world : World memory
world = record {
  users = ada ∷ [];
  refresh_tokens = token ∷ [];
  organizations = record { id = 4; slug = 97 ∷ []; name = 65 ∷ [] } ∷ [];
  memberships = owner_row ∷ member_row ∷ [];
  invites = invite ∷ [];
  teams = [];
  projects = project ∷ [];
  issues = issue ∷ [];
  labels = [];
  attachments = [];
  notifications = [];
  subscriptions = subscription ∷ [];
  audit_logs = [];
  queue = [];
  emitted = [];
  mails = [];
  deleted_objects = [];
}
