-- ===== src/Services/Issues/Rows.antt =====
-- The inputs and the rows of apps/api/src/modules/issues/issues.service.ts, and what its operations write to a row.
use ai_saas_multi_tenant.Base.{
  ℕ, ◌+◌, Bool, false, ◌&&◌, ◌||◌, Option, none, some, List, [], ◌∷◌, ◌++◌, Text, ◌==◌,
}
use ai_saas_multi_tenant.Model.Data.{
  RowId, Time, Project, Issue, IssueRow, IssueStatus, IssuePriority, IssueField, same_status,
  NotificationType, NotificationJob,
}
use ai_saas_multi_tenant.Services.Notifications.{or_kept}

pub record CreateIssueInput : Type 0 where
  pub title : Text
  pub description : Option Text
  pub status : IssueStatus
  pub priority : IssuePriority
  pub assignee_id : Option RowId
  pub due_date : Option Time
  pub label_ids : List RowId

-- `none` is a key that the input leaves out, `some none` is null.
pub record UpdateIssueInput : Type 0 where
  pub title : Option Text
  pub description : Option Text
  pub status : Option IssueStatus
  pub priority : Option IssuePriority
  pub assignee_id : Option (Option RowId)
  pub due_date : Option (Option Time)

pub record MoveIssueInput : Type 0 where
  pub status : IssueStatus
  pub above_id : Option RowId
  pub below_id : Option RowId

-- `organizationId_key`
abbrev pub is_project : RowId → ℕ → Project → Bool
is_project org key p = p.organization_id == org && p.key == key

abbrev pub in_org : RowId → RowId → Issue → Bool
in_org org id i = i.id == id && i.organization_id == org

abbrev pub in_column : RowId → IssueStatus → Issue → Bool
in_column project status i = i.project_id == project && same_status i.status status

abbrev pub bump : Project → Project
bump p = record p { issue_counter = p.issue_counter + 1 }

abbrev pub assigned_job : RowId → RowId → RowId → Issue → NotificationJob
assigned_job org actor assignee i = record {
  organization_id = org;
  recipient_id = assignee;
  actor_id = some actor;
  type = NotificationType.issue_assigned;
  payload = record { issue_id = i.id; number = i.number; title = some i.title };
}

abbrev pub new_issue : RowId → RowId → RowId → RowId → ℕ → Text → CreateIssueInput → Issue
new_issue id org actor project number rank input = record {
  id = id;
  organization_id = org;
  project_id = project;
  number = number;
  title = input.title;
  description = input.description;
  status = input.status;
  priority = input.priority;
  rank = rank;
  reporter_id = actor;
  assignee_id = input.assignee_id;
  due_date = input.due_date;
  labels = input.label_ids;
}

abbrev pub optional_text : Option Text → Option Text → Option Text
optional_text none old = old
optional_text (some new) old = some new

-- `input.assigneeId ? { connect } : …`
abbrev pub connected : UpdateIssueInput → Option RowId
connected input = or_kept input.assignee_id none

abbrev pub is_listed_id : RowId → List RowId → Bool
is_listed_id id [] = false
is_listed_id id (i ∷ is) = i == id || is_listed_id id is

-- `issueSelect`, less the times
abbrev pub selected : Issue → IssueRow
selected i = record {
  id = i.id;
  number = i.number;
  title = i.title;
  description = i.description;
  status = i.status;
  priority = i.priority;
  rank = i.rank;
  assignee_id = i.assignee_id;
  reporter_id = i.reporter_id;
  due_date = i.due_date;
  project_id = i.project_id;
}

-- The columns of `data`, written to the row.
abbrev pub set_fields : UpdateIssueInput → Issue → Issue
set_fields input i = record i {
  title = or_kept input.title i.title;
  description = optional_text input.description i.description;
  status = or_kept input.status i.status;
  priority = or_kept input.priority i.priority;
  due_date = or_kept input.due_date i.due_date;
  assignee_id = or_kept input.assignee_id i.assignee_id;
}

abbrev pub key_of {ℓ} : {A : Type ℓ} → IssueField → Option A → List IssueField
key_of f none = []
key_of f (some _) = f ∷ []

-- `Object.keys(data)`
abbrev pub changed_keys : UpdateIssueInput → List IssueField
changed_keys input =
    key_of IssueField.title input.title
    ++ key_of IssueField.description input.description
    ++ key_of IssueField.status input.status
    ++ key_of IssueField.priority input.priority
    ++ key_of IssueField.due_date input.due_date
    ++ key_of IssueField.assignee input.assignee_id

-- `input.assigneeId && input.assigneeId !== before.assigneeId`
abbrev pub is_assignee : RowId → Option RowId → Bool
is_assignee a none = false
is_assignee a (some b) = a == b

abbrev pub rank_of : Option Issue → Option Text
rank_of none = none
rank_of (some i) = some i.rank

abbrev pub set_place : IssueStatus → Text → Issue → Issue
set_place status rank i = record i { status = status; rank = rank }
