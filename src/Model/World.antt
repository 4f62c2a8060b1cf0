-- ===== src/Model/World.antt =====
-- The state that the request handlers change: the tables, and what goes out of the service.
use ai_saas_multi_tenant.Base.{List, Text}
use ai_saas_multi_tenant.Prisma.{Prisma}
use ai_saas_multi_tenant.Model.Data.{
  User, RefreshToken, Organization, Membership, Invite, Team, Project, Issue, Label, Attachment,
  Notification, Subscription, AuditEntry, NotificationJob, Emission, MailMessage,
}

pub record World (db : Prisma) : Type 0 where
  pub users : db.Table User
  pub refresh_tokens : db.Table RefreshToken
  pub organizations : db.Table Organization
  pub memberships : db.Table Membership
  pub invites : db.Table Invite
  pub teams : db.Table Team
  pub projects : db.Table Project
  pub issues : db.Table Issue
  pub labels : db.Table Label
  pub attachments : db.Table Attachment
  pub notifications : db.Table Notification
  pub subscriptions : db.Table Subscription
  pub audit_logs : db.Table AuditEntry
  -- what was handed to the queue, the gateway, the mail server and the object store, newest last
  pub queue : List NotificationJob
  pub emitted : List Emission
  pub mails : List MailMessage
  pub deleted_objects : List Text
