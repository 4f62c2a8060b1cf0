-- ===== src/Model/Data.antt =====
-- The enumerations and the rows, as the services read and write them (packages/db/prisma), with
-- packages/types/src/schemas.ts and realtime.ts for the enumerations and events.
use ai_saas_multi_tenant.Base.{ℕ, Bool, Option, List, Text, ◌==◌}
use ai_saas_multi_tenant.Rbac.{Role}

abbrev pub RowId : Type 0
RowId = ℕ

-- Milliseconds.
abbrev pub Time : Type 0
Time = ℕ

pub data IssueStatus : Type 0 where
  backlog todo in_progress in_review done canceled : IssueStatus

abbrev pub status_code : IssueStatus → ℕ
status_code backlog = 0
status_code todo = 1
status_code in_progress = 2
status_code in_review = 3
status_code done = 4
status_code canceled = 5

abbrev pub same_status : IssueStatus → IssueStatus → Bool
same_status s t = status_code s == status_code t

pub data IssuePriority : Type 0 where
  none low medium high urgent : IssuePriority

abbrev pub priority_code : IssuePriority → ℕ
priority_code none = 0
priority_code low = 1
priority_code medium = 2
priority_code high = 3
priority_code urgent = 4

abbrev pub same_priority : IssuePriority → IssuePriority → Bool
same_priority p q = priority_code p == priority_code q

pub data NotificationType : Type 0 where
  issue_assigned issue_status_changed comment_created mentioned invited : NotificationType

pub data SubscriptionPlan : Type 0 where
  free pro business : SubscriptionPlan

pub data SubscriptionStatus : Type 0 where
  active trialing past_due canceled incomplete : SubscriptionStatus

pub record User : Type 0 where
  pub id : RowId
  pub email : ℕ
  pub password_hash : Option ℕ
  pub name : Text
  pub avatar_url : Option ℕ
  pub email_on_assigned : Bool
  pub email_on_mentioned : Bool
  pub email_on_comment : Bool

pub record DeviceInfo : Type 0 where
  pub user_agent : Option ℕ
  pub ip : Option ℕ

pub record RefreshToken : Type 0 where
  pub id : RowId
  pub user_id : RowId
  pub token_hash : ℕ
  pub family_id : RowId
  pub expires_at : Time
  pub revoked_at : Option Time
  pub device : DeviceInfo

pub record Organization : Type 0 where
  pub id : RowId
  pub slug : Text
  pub name : Text

pub record Membership : Type 0 where
  pub id : RowId
  pub user_id : RowId
  pub organization_id : RowId
  pub role : Role

pub record Invite : Type 0 where
  pub id : RowId
  pub organization_id : RowId
  pub email : ℕ
  pub role : Role
  pub token_hash : ℕ
  pub invited_by_id : RowId
  pub expires_at : Time
  pub accepted_at : Option Time

pub record Team : Type 0 where
  pub id : RowId
  pub organization_id : RowId

pub record Project : Type 0 where
  pub id : RowId
  pub organization_id : RowId
  pub team_id : Option RowId
  pub key : ℕ
  pub name : Text
  pub description : Option Text
  pub issue_counter : ℕ
  pub archived_at : Option Time

pub record Issue : Type 0 where
  pub id : RowId
  pub organization_id : RowId
  pub project_id : RowId
  pub number : ℕ
  pub title : Text
  pub description : Option Text
  pub status : IssueStatus
  pub priority : IssuePriority
  pub rank : Text
  pub reporter_id : RowId
  pub assignee_id : Option RowId
  pub due_date : Option Time
  -- the rows of `issue_labels`
  pub labels : List RowId

pub record Label : Type 0 where
  pub id : RowId
  pub organization_id : RowId
  pub name : Text
  pub color : Text

-- What a query of an issue with `issueSelect` returns, less the times of creation and update.
pub record IssueRow : Type 0 where
  pub id : RowId
  pub number : ℕ
  pub title : Text
  pub description : Option Text
  pub status : IssueStatus
  pub priority : IssuePriority
  pub rank : Text
  pub assignee_id : Option RowId
  pub reporter_id : RowId
  pub due_date : Option Time
  pub project_id : RowId

pub record Attachment : Type 0 where
  pub id : RowId
  pub issue_id : RowId
  pub uploader_id : RowId
  pub file_name : Text
  pub file_key : Text
  pub content_type : Text
  pub size : ℕ

-- What `payload` holds for the one kind of job that the services enqueue.
pub record Payload : Type 0 where
  pub issue_id : RowId
  pub number : ℕ
  pub title : Option Text

pub record Notification : Type 0 where
  pub id : RowId
  pub organization_id : RowId
  pub user_id : RowId
  pub type : NotificationType
  pub payload : Payload
  pub read_at : Option Time

pub record Subscription : Type 0 where
  pub id : RowId
  pub organization_id : RowId
  pub stripe_customer_id : Option ℕ
  pub stripe_subscription_id : Option ℕ
  pub plan : SubscriptionPlan
  pub status : SubscriptionStatus
  pub seats : ℕ
  pub current_period_end : Option Time
  pub cancel_at_period_end : Bool

-- The strings that `action` takes; `entityType` is fixed by it.
pub data AuditAction : Type 0 where
  org_created member_added member_invited invite_accepted member_role_updated : AuditAction
  member_removed project_created issue_created issue_updated issue_moved : AuditAction
  issue_deleted attachment_created attachment_deleted subscription_updated : AuditAction

-- The columns that an update names.
pub data IssueField : Type 0 where
  title description status priority due_date assignee : IssueField

pub data Metadata : Type 0 where
  nothing : Metadata
  named : Text → Text → Metadata
  numbered : ℕ → Text → Metadata
  changed : List IssueField → Metadata
  moved : IssueStatus → IssueStatus → Metadata
  addressed : ℕ → Role → Metadata
  reassigned : Role → Role → Metadata
  about : RowId → Metadata
  file : RowId → Text → ℕ → Metadata
  billed : ℕ → SubscriptionPlan → Metadata

-- common/audit/audit.service.ts
pub record AuditEntry : Type 0 where
  pub organization_id : RowId
  pub actor_id : Option RowId
  pub action : AuditAction
  pub entity_id : RowId
  pub metadata : Metadata

-- notifications.constants.ts
pub record NotificationJob : Type 0 where
  pub organization_id : RowId
  pub recipient_id : RowId
  pub actor_id : Option RowId
  pub type : NotificationType
  pub payload : Payload

-- realtime.ts, for the events that the REST layer emits; a created or updated issue is sent with all that was
-- selected of it, of which `IssueSnapshot` declares a part.
pub data BoardEvent : Type 0 where
  created : IssueRow → BoardEvent
  updated : IssueRow → BoardEvent
  moved : RowId → IssueStatus → Text → BoardEvent
  deleted : RowId → BoardEvent

pub record Emission : Type 0 where
  pub organization_id : RowId
  pub project_id : RowId
  pub event : BoardEvent

-- mail.service.ts; the text is made of the parts that are listed.
pub data MailText : Type 0 where
  invitation : Text → Role → ℕ → MailText
  notification : Text → NotificationType → Option Text → MailText

pub record MailMessage : Type 0 where
  pub to : ℕ
  pub text : MailText
