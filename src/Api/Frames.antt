-- ===== src/Api/Frames.antt =====
-- Which tables a request leaves alone.
use ai_saas_multi_tenant.Base.{ℕ, ◌≡◌, Bool, true, false, arith}
use ai_saas_multi_tenant.Prisma.{Prisma}
use ai_saas_multi_tenant.Model.World.{World}
use ai_saas_multi_tenant.Model.Platform.{External, Env}
use ai_saas_multi_tenant.Model.Action.{Call}
use ai_saas_multi_tenant.Services.Audit.{record_audit}
use ai_saas_multi_tenant.Services.Notifications
use ai_saas_multi_tenant.Services.Notifications.{enqueue}
use ai_saas_multi_tenant.Services.Orgs
use ai_saas_multi_tenant.Services.Projects
use ai_saas_multi_tenant.Services.Issues
use ai_saas_multi_tenant.Model.Data.{RowId}
use ai_saas_multi_tenant.Services.Attachments
use ai_saas_multi_tenant.Services.Billing
use ai_saas_multi_tenant.Services.Billing.{StripeEvent}
use ai_saas_multi_tenant.Auth.Tokens.{
  create_refresh, issue_for_user, exchange, reject_reuse, rotate, revoke,
}
use ai_saas_multi_tenant.Auth.Accounts.{login, refresh, logout}
use ai_saas_multi_tenant.Auth.Registration.{create_org_for_user, bootstrap, register}
use ai_saas_multi_tenant.Api.Requests.{
  Request, sign_up, sign_in, refresh_session, sign_out, create_org, add_member, update_member_role,
  remove_member, accept_invite, create_project, create_issue, update_issue, move_issue,
  delete_issue, confirm_attachment, remove_attachment, mark_read, mark_all_read, update_prefs,
  process_job, checkout, webhook, serve,
}

-- The requests that write projects or issues.
abbrev pub writes_board : Request → Bool
writes_board (create_project org actor input) = true
writes_board (create_issue org actor key input) = true
writes_board (update_issue org actor id input) = true
writes_board (move_issue org actor id input) = true
writes_board (delete_issue org actor id) = true
writes_board _ = false

-- The requests that write issues, and so tell the boards.
abbrev pub edits_issues : Request → Bool
edits_issues (create_issue org actor key input) = true
edits_issues (update_issue org actor id input) = true
edits_issues (move_issue org actor id input) = true
edits_issues (delete_issue org actor id) = true
edits_issues _ = false

-- The requests that write organizations, memberships, invites or subscriptions.
abbrev pub writes_orgs : Request → Bool
writes_orgs (sign_up input device) = true
writes_orgs (create_org user input) = true
writes_orgs (add_member org actor email role) = true
writes_orgs (update_member_role org actor target role) = true
writes_orgs (remove_member org actor target) = true
writes_orgs (accept_invite user email token) = true
writes_orgs (checkout created org plan) = true
writes_orgs (webhook event) = true
writes_orgs _ = false

-- The requests that write users or refresh tokens.
abbrev pub writes_accounts : Request → Bool
writes_accounts (sign_up input device) = true
writes_accounts (sign_in dummy input device) = true
writes_accounts (refresh_session token device) = true
writes_accounts (sign_out token) = true
writes_accounts (update_prefs user prefs) = true
writes_accounts _ = false

module _ (x : External) (env : Env) (c : Call) {db : Prisma} (w : World db) where
  pub board_same :
      (r : Request)
      → writes_board r ≡ false
      → ((serve x env c r w).issues ≡ w.issues)
        × ((serve x env c r w).projects ≡ w.projects)
        × ((serve x env c r w).teams ≡ w.teams)
  unfolding serve register bootstrap create_org_for_user issue_for_user create_refresh record_audit
      login refresh rotate exchange reject_reuse logout revoke Orgs.create Orgs.add_member
      Orgs.add_or_invite Orgs.add_user Orgs.invite_address Orgs.update_member_role
      Orgs.remove_member Orgs.accept_invite Orgs.redeem Attachments.confirm Attachments.remove
      Attachments.delete_object Notifications.mark_read Notifications.mark_all_read
      Notifications.update_prefs Notifications.process Notifications.send_email
      Billing.create_checkout Billing.handle_webhook Billing.reconcile_subscription
  board_same (sign_up input device) e = (ground arith, ground arith, ground arith)
  board_same (sign_in dummy input device) e = (ground arith, ground arith, ground arith)
  board_same (refresh_session token device) e = (ground arith, ground arith, ground arith)
  board_same (sign_out token) e = (ground arith, ground arith, ground arith)
  board_same (create_org user input) e = (ground arith, ground arith, ground arith)
  board_same (add_member org actor email role) e = (ground arith, ground arith, ground arith)
  board_same (update_member_role org actor target role) e =
      (ground arith, ground arith, ground arith)
  board_same (remove_member org actor target) e = (ground arith, ground arith, ground arith)
  board_same (accept_invite user email token) e = (ground arith, ground arith, ground arith)
  board_same (create_project org actor input) e = cc
  board_same (create_issue org actor key input) e = cc
  board_same (update_issue org actor id input) e = cc
  board_same (move_issue org actor id input) e = cc
  board_same (delete_issue org actor id) e = cc
  board_same (confirm_attachment org actor issue input) e =
      (ground arith, ground arith, ground arith)
  board_same (remove_attachment org actor issue id) e = (ground arith, ground arith, ground arith)
  board_same (mark_read user ids) e = (ground arith, ground arith, ground arith)
  board_same (mark_all_read user) e = (ground arith, ground arith, ground arith)
  board_same (update_prefs user prefs) e = (ground arith, ground arith, ground arith)
  board_same (process_job job) e = (ground arith, ground arith, ground arith)
  board_same (checkout created org plan) e = (ground arith, ground arith, ground arith)
  board_same (webhook event) e = (ground arith, ground arith, ground arith)

  pub issues_same :
      (r : Request)
      → edits_issues r ≡ false
      → ((serve x env c r w).issues ≡ w.issues) × ((serve x env c r w).emitted ≡ w.emitted)
  unfolding serve register bootstrap create_org_for_user issue_for_user create_refresh record_audit
      login refresh rotate exchange reject_reuse logout revoke Orgs.create Orgs.add_member
      Orgs.add_or_invite Orgs.add_user Orgs.invite_address Orgs.update_member_role
      Orgs.remove_member Orgs.accept_invite Orgs.redeem Attachments.confirm Attachments.remove
      Attachments.delete_object Notifications.mark_read Notifications.mark_all_read
      Notifications.update_prefs Notifications.process Notifications.send_email
      Billing.create_checkout Billing.handle_webhook Billing.reconcile_subscription Projects.create
      Projects.is_foreign_team
  issues_same (sign_up input device) e = (ground arith, ground arith)
  issues_same (sign_in dummy input device) e = (ground arith, ground arith)
  issues_same (refresh_session token device) e = (ground arith, ground arith)
  issues_same (sign_out token) e = (ground arith, ground arith)
  issues_same (create_org user input) e = (ground arith, ground arith)
  issues_same (add_member org actor email role) e = (ground arith, ground arith)
  issues_same (update_member_role org actor target role) e = (ground arith, ground arith)
  issues_same (remove_member org actor target) e = (ground arith, ground arith)
  issues_same (accept_invite user email token) e = (ground arith, ground arith)
  issues_same (create_project org actor input) e = (ground arith, ground arith)
  issues_same (create_issue org actor key input) e = cc
  issues_same (update_issue org actor id input) e = cc
  issues_same (move_issue org actor id input) e = cc
  issues_same (delete_issue org actor id) e = cc
  issues_same (confirm_attachment org actor issue input) e = (ground arith, ground arith)
  issues_same (remove_attachment org actor issue id) e = (ground arith, ground arith)
  issues_same (mark_read user ids) e = (ground arith, ground arith)
  issues_same (mark_all_read user) e = (ground arith, ground arith)
  issues_same (update_prefs user prefs) e = (ground arith, ground arith)
  issues_same (process_job job) e = (ground arith, ground arith)
  issues_same (checkout created org plan) e = (ground arith, ground arith)
  issues_same (webhook event) e = (ground arith, ground arith)

  create_issue-orgs :
      (org actor : RowId) (key : ℕ) (input : Issues.CreateIssueInput)
      → let v = (Issues.create c org actor key input w).1 in
        (v.organizations ≡ w.organizations)
        × (v.memberships ≡ w.memberships)
        × (v.invites ≡ w.invites)
        × (v.subscriptions ≡ w.subscriptions)
  unfolding Issues.create Issues.insert_issue Issues.announce Issues.notify_assignee enqueue
      record_audit
  create_issue-orgs org actor key input = (ground arith, ground arith, ground arith, ground arith)

  pub orgs_same :
      (r : Request)
      → writes_orgs r ≡ false
      → ((serve x env c r w).organizations ≡ w.organizations)
        × ((serve x env c r w).memberships ≡ w.memberships)
        × ((serve x env c r w).invites ≡ w.invites)
        × ((serve x env c r w).subscriptions ≡ w.subscriptions)
  unfolding serve login issue_for_user create_refresh refresh rotate exchange reject_reuse logout
      revoke Projects.create Projects.is_foreign_team enqueue Issues.update Issues.notify_change
      Issues.move Issues.place Issues.delete_issue Attachments.confirm Attachments.remove
      Attachments.delete_object Notifications.mark_read Notifications.mark_all_read
      Notifications.update_prefs Notifications.process Notifications.send_email record_audit
  orgs_same (sign_up input device) e = cc
  orgs_same (sign_in dummy input device) e =
      (ground arith, ground arith, ground arith, ground arith)
  orgs_same (refresh_session token device) e =
      (ground arith, ground arith, ground arith, ground arith)
  orgs_same (sign_out token) e = (ground arith, ground arith, ground arith, ground arith)
  orgs_same (create_org user input) e = cc
  orgs_same (add_member org actor email role) e = cc
  orgs_same (update_member_role org actor target role) e = cc
  orgs_same (remove_member org actor target) e = cc
  orgs_same (accept_invite user email token) e = cc
  orgs_same (create_project org actor input) e =
      (ground arith, ground arith, ground arith, ground arith)
  orgs_same (create_issue org actor key input) e = create_issue-orgs org actor key input
  orgs_same (update_issue org actor id input) e =
      (ground arith, ground arith, ground arith, ground arith)
  orgs_same (move_issue org actor id input) e =
      (ground arith, ground arith, ground arith, ground arith)
  orgs_same (delete_issue org actor id) e = (ground arith, ground arith, ground arith, ground arith)
  orgs_same (confirm_attachment org actor issue input) e =
      (ground arith, ground arith, ground arith, ground arith)
  orgs_same (remove_attachment org actor issue id) e =
      (ground arith, ground arith, ground arith, ground arith)
  orgs_same (mark_read user ids) e = (ground arith, ground arith, ground arith, ground arith)
  orgs_same (mark_all_read user) e = (ground arith, ground arith, ground arith, ground arith)
  orgs_same (update_prefs user prefs) e = (ground arith, ground arith, ground arith, ground arith)
  orgs_same (process_job job) e = (ground arith, ground arith, ground arith, ground arith)
  orgs_same (checkout created org plan) e = cc
  orgs_same (webhook event) e = cc

  pub accounts_same :
      (r : Request)
      → writes_accounts r ≡ false
      → ((serve x env c r w).users ≡ w.users)
        × ((serve x env c r w).refresh_tokens ≡ w.refresh_tokens)
  unfolding serve Orgs.create record_audit Orgs.add_member Orgs.add_or_invite Orgs.add_user
      Orgs.invite_address Orgs.update_member_role Orgs.remove_member Orgs.accept_invite Orgs.redeem
      Projects.create Projects.is_foreign_team Issues.create Issues.insert_issue Issues.announce
      Issues.notify_assignee enqueue Issues.update Issues.notify_change Issues.move Issues.place
      Issues.delete_issue Attachments.confirm Attachments.remove Attachments.delete_object
      Notifications.mark_read Notifications.mark_all_read Notifications.process
      Notifications.send_email Billing.create_checkout Billing.handle_webhook
      Billing.reconcile_subscription
  accounts_same (sign_up input device) e = cc
  accounts_same (sign_in dummy input device) e = cc
  accounts_same (refresh_session token device) e = cc
  accounts_same (sign_out token) e = cc
  accounts_same (create_org user input) e = (ground arith, ground arith)
  accounts_same (add_member org actor email role) e = (ground arith, ground arith)
  accounts_same (update_member_role org actor target role) e = (ground arith, ground arith)
  accounts_same (remove_member org actor target) e = (ground arith, ground arith)
  accounts_same (accept_invite user email token) e = (ground arith, ground arith)
  accounts_same (create_project org actor input) e = (ground arith, ground arith)
  accounts_same (create_issue org actor key input) e = (ground arith, ground arith)
  accounts_same (update_issue org actor id input) e = (ground arith, ground arith)
  accounts_same (move_issue org actor id input) e = (ground arith, ground arith)
  accounts_same (delete_issue org actor id) e = (ground arith, ground arith)
  accounts_same (confirm_attachment org actor issue input) e = (ground arith, ground arith)
  accounts_same (remove_attachment org actor issue id) e = (ground arith, ground arith)
  accounts_same (mark_read user ids) e = (ground arith, ground arith)
  accounts_same (mark_all_read user) e = (ground arith, ground arith)
  accounts_same (update_prefs user prefs) e = cc
  accounts_same (process_job job) e = (ground arith, ground arith)
  accounts_same (checkout created org plan) e = (ground arith, ground arith)
  accounts_same (webhook event) e = (ground arith, ground arith)
