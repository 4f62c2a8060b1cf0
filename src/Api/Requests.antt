-- ===== src/Api/Requests.antt =====
-- The requests that change the state, as the controllers of apps/api/src/modules pass them to the
-- services, and the job of notifications.processor.ts. Each brings the call that it makes of the
-- platform; what it answers is left out here.
use ai_saas_multi_tenant.Base.{ℕ, Option, List}
use ai_saas_multi_tenant.Prisma.{Prisma}
use ai_saas_multi_tenant.Rbac.{Role}
use ai_saas_multi_tenant.Model.Data.{RowId, DeviceInfo, NotificationJob}
use ai_saas_multi_tenant.Model.World.{World}
use ai_saas_multi_tenant.Model.Platform.{External, Env}
use ai_saas_multi_tenant.Model.Action.{Call}
use ai_saas_multi_tenant.Auth.Accounts.{LoginInput, login, refresh, logout}
use ai_saas_multi_tenant.Auth.Registration.{RegisterInput, register}
use ai_saas_multi_tenant.Services.Orgs
use ai_saas_multi_tenant.Services.Projects
use ai_saas_multi_tenant.Services.Issues
use ai_saas_multi_tenant.Services.Attachments
use ai_saas_multi_tenant.Services.Notifications
use ai_saas_multi_tenant.Services.Billing
use ai_saas_multi_tenant.Services.Billing.{PaidPlan, StripeEvent}

pub data Request : Type 0 where
  -- auth.controller.ts; the first number of `sign_in` is the hash that stands in for a missing one
  sign_up : RegisterInput → DeviceInfo → Request
  sign_in : ℕ → LoginInput → DeviceInfo → Request
  refresh_session : ℕ → DeviceInfo → Request
  sign_out : Option ℕ → Request
  -- orgs.controller.ts and invites.controller.ts
  create_org : RowId → Orgs.CreateOrgInput → Request
  add_member : RowId → RowId → ℕ → Role → Request
  update_member_role : RowId → RowId → RowId → Role → Request
  remove_member : RowId → RowId → RowId → Request
  accept_invite : RowId → ℕ → ℕ → Request
  -- projects.controller.ts
  create_project : RowId → RowId → Projects.CreateProjectInput → Request
  -- issues.controller.ts
  create_issue : RowId → RowId → ℕ → Issues.CreateIssueInput → Request
  update_issue : RowId → RowId → RowId → Issues.UpdateIssueInput → Request
  move_issue : RowId → RowId → RowId → Issues.MoveIssueInput → Request
  delete_issue : RowId → RowId → RowId → Request
  -- attachments.controller.ts
  confirm_attachment : RowId → RowId → RowId → Attachments.ConfirmAttachmentInput → Request
  remove_attachment : RowId → RowId → RowId → RowId → Request
  -- notifications.controller.ts, and the queue's worker
  mark_read : RowId → List RowId → Request
  mark_all_read : RowId → Request
  update_prefs : RowId → Notifications.NotificationPrefs → Request
  process_job : NotificationJob → Request
  -- billing.controller.ts, with the customer or the event that Stripe answers
  checkout : ℕ → RowId → PaidPlan → Request
  webhook : Option StripeEvent → Request

module _ (x : External) (env : Env) (c : Call) {db : Prisma} where
  unfoldable pub serve : Request → World db → World db
  serve (sign_up input device) w = (register x env c input device w).1
  serve (sign_in dummy input device) w = (login x env c dummy input device w).1
  serve (refresh_session token device) w = (refresh x env c token device w).1
  serve (sign_out token) w = (logout x env c token w).1
  serve (create_org user input) w = (Orgs.create c user input w).1
  serve (add_member org actor email role) w = (Orgs.add_member x c org actor email role w).1
  serve (update_member_role org actor target role) w =
      (Orgs.update_member_role c org actor target role w).1
  serve (remove_member org actor target) w = (Orgs.remove_member c org actor target w).1
  serve (accept_invite user email token) w = (Orgs.accept_invite x c user email token w).1
  serve (create_project org actor input) w = (Projects.create c org actor input w).1
  serve (create_issue org actor key input) w = (Issues.create c org actor key input w).1
  serve (update_issue org actor id input) w = (Issues.update c org actor id input w).1
  serve (move_issue org actor id input) w = (Issues.move c org actor id input w).1
  serve (delete_issue org actor id) w = (Issues.delete_issue c org actor id w).1
  serve (confirm_attachment org actor issue input) w =
      (Attachments.confirm x c org actor issue input w).1
  serve (remove_attachment org actor issue id) w = (Attachments.remove x c org actor issue id w).1
  serve (mark_read user ids) w = (Notifications.mark_read c user ids w).1
  serve (mark_all_read user) w = (Notifications.mark_all_read c user w).1
  serve (update_prefs user prefs) w = (Notifications.update_prefs user prefs w).1
  serve (process_job job) w = (Notifications.process c job w).1
  serve (checkout created org plan) w = (Billing.create_checkout env c created org plan w).1
  serve (webhook event) w = (Billing.handle_webhook env c event w).1
