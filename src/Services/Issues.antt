-- ===== src/Services/Issues.antt =====
-- Issues on a board: apps/api/src/modules/issues/issues.service.ts.
mod Rows
pub mod Ranks
pub mod Steps
pub mod Creation
pub mod Numbers
pub mod Tenancy
pub mod Bottom
pub mod Listing
pub use Rows.*
use ai_saas_multi_tenant.Base.{
  ℕ, ◌+◌, Bool, true, false, not, ◌&&◌, ◌||◌, Option, none, some, List, [], ◌∷◌, ◌++◌, Text, ◌==◌,
  if◌then◌else◌,
}
use ai_saas_multi_tenant.Prisma.{Prisma}
use ai_saas_multi_tenant.Rank.{Ranked, rank_between, first_rank}
use ai_saas_multi_tenant.Model.Data.{
  RowId, Time, User, Label, Project, Issue, IssueStatus, IssuePriority, IssueField, same_status,
  AuditAction, Metadata, NotificationType, NotificationJob, BoardEvent,
}
use ai_saas_multi_tenant.Model.World.{World}
use ai_saas_multi_tenant.Model.Action.{
  Action, Call, bad_request, not_found, record_missing, constraint_failed, plain_error, pure, raise,
  gets, or_throw, throw_if, modify, transaction, ◌>>=◌, ◌>>◌,
}
use ai_saas_multi_tenant.Services.Orgs.{is_found}
use ai_saas_multi_tenant.Services.Audit.{audit_entry, record_audit}
use ai_saas_multi_tenant.Services.Notifications.{enqueue, or_kept}

module _ {db : Prisma} where
  -- `resolveProject`, which throws where this is `none`
  abbrev pub find_project : RowId → ℕ → World db → Option Project
  find_project org key w = db.find_first (is_project org key) w.projects

  unfoldable pub get_by_number : RowId → ℕ → ℕ → Action db Issue
  get_by_number org key number = do
    p ← or_throw not_found (← gets (find_project org key))
    or_throw not_found
        (← gets (λ w.
          db.find_first
            (λ (i : Issue).
              i.organization_id == org && (i.project_id == p.id && i.number == number))
            w.issues))

  abbrev pub emit_to_project : RowId → RowId → BoardEvent → Action db (Unit {0})
  emit_to_project org project event = modify (λ w. record w {
    emitted =
        w.emitted ++ record { organization_id = org; project_id = project; event = event } ∷ [];
  })

  -- `rankBetween` throws an Error; the other outcome does not occur.
  abbrev pub ranked_or : Ranked → Action db Text → Action db Text
  ranked_or (Ranked.rank t) on_error = pure t
  ranked_or Ranked.inverted on_error = on_error
  ranked_or Ranked.out_of_fuel on_error = raise plain_error

  abbrev pub bottom_rank : Option Issue → Action db Text
  bottom_rank none = pure first_rank
  bottom_rank (some last) = ranked_or (rank_between (some last.rank) none) (raise plain_error)

  -- A reference to a user that is not stored.
  abbrev pub is_dangling : Option RowId → World db → Bool
  is_dangling none w = false
  is_dangling (some id) w = not (is_found (db.find_first (λ (u : User). u.id == id) w.users))

  -- The rows of `issue_labels` can be created: the labels are stored, and no pair is there twice.
  abbrev pub can_label : List RowId → World db → Bool
  can_label [] w = true
  can_label (id ∷ ids) w =
      is_found (db.find_first (λ (l : Label). l.id == id) w.labels)
      && (not (is_listed_id id ids) && can_label ids w)

  -- The constraints of the database on the references of a new issue to its assignee and its labels; the
  -- rows that its other references name have been read on the way here.
  abbrev pub breaks_reference : CreateIssueInput → World db → Bool
  breaks_reference input w = is_dangling input.assignee_id w || not (can_label input.label_ids w)

module _ {db : Prisma} (c : Call) (org actor : RowId) where
  -- The body of the transaction in `create`.
  unfoldable pub insert_issue : Project → CreateIssueInput → Action db Issue
  insert_issue p input = do
    modify (λ w. record w { projects = db.update_many (λ q. q.id == p.id) bump w.projects })
    updated ←
        or_throw record_missing
          (← gets (λ w. db.find_first (λ (q : Project). q.id == p.id) w.projects))
    last ←
        gets (λ w. db.find_greatest (λ (i : Issue). i.rank) (in_column p.id input.status) w.issues)
    r ← bottom_rank last
    broken ← gets (breaks_reference input)
    throw_if broken constraint_failed
    modify (λ w. record w {
      issues =
          db.create (new_issue (c.ids 0) org actor p.id updated.issue_counter r input) w.issues;
    })
    pure (new_issue (c.ids 0) org actor p.id updated.issue_counter r input)

  -- `if (issue.assigneeId) …`
  unfoldable pub notify_assignee : Issue → Option RowId → Action db (Unit {0})
  notify_assignee i none = pure tt
  notify_assignee i (some assignee) = enqueue (assigned_job org actor assignee i)

  -- What `create` does behind the transaction.
  unfoldable pub announce : Project → Issue → Action db Issue
  unfolding notify_assignee
  announce p i = do
    record_audit c
        (audit_entry org actor AuditAction.issue_created i.id (Metadata.numbered i.number i.title))
    emit_to_project org p.id (BoardEvent.created (selected i))
    notify_assignee i i.assignee_id
    pure i

  unfoldable pub create : ℕ → CreateIssueInput → Action db Issue
  create key input = do
    p ← or_throw not_found (← gets (find_project org key))
    i ← transaction (insert_issue p input)
    announce p i

  -- Notify the new assignee on (re)assignment.
  unfoldable pub notify_change : Issue → Issue → Option (Option RowId) → Action db (Unit {0})
  notify_change before i (some (some assignee)) =
      if is_assignee assignee before.assignee_id
      then pure tt
      else enqueue (assigned_job org actor assignee i)
  notify_change before i (some none) = pure tt
  notify_change before i none = pure tt

  unfoldable pub update : RowId → UpdateIssueInput → Action db Issue
  unfolding notify_change
  update id input = do
    before ← or_throw not_found (← gets (λ w. db.find_first (in_org org id) w.issues))
    dangling ← gets (is_dangling (connected input))
    throw_if dangling record_missing
    modify (λ w. record w { issues = db.update_many (λ i. i.id == id) (set_fields input) w.issues })
    record_audit c (
        audit_entry org actor AuditAction.issue_updated before.id
          (Metadata.changed (changed_keys input)))
    emit_to_project org before.project_id (BoardEvent.updated (selected (set_fields input before)))
    notify_change before (set_fields input before) input.assignee_id
    pure (set_fields input before)

  -- A neighbour must be in the same project and the target column.
  abbrev pub neighbour : Issue → IssueStatus → Option RowId → World db → Option Issue
  neighbour i status none w = none
  neighbour i status (some id) w =
      db.find_first (λ (j : Issue). j.id == id && in_column i.project_id status j) w.issues

  -- `move`, behind the reads of the neighbours
  unfoldable pub place : Issue → IssueStatus → Ranked → Action db Issue
  place i status ranked = do
    r ← ranked_or ranked (raise bad_request)
    modify (λ w. record w {
      issues = db.update_many (λ j. j.id == i.id) (set_place status r) w.issues;
    })
    record_audit c
        (audit_entry org actor AuditAction.issue_moved i.id (Metadata.moved i.status status))
    emit_to_project org i.project_id (BoardEvent.moved i.id status r)
    pure (set_place status r i)

  unfoldable pub move : RowId → MoveIssueInput → Action db Issue
  unfolding place
  move id input = do
    i ← or_throw not_found (← gets (λ w. db.find_first (in_org org id) w.issues))
    above ← gets (neighbour i input.status input.above_id)
    below ← gets (neighbour i input.status input.below_id)
    place i input.status (rank_between (rank_of above) (rank_of below))

  unfoldable pub delete_issue : RowId → Action db (Unit {0})
  delete_issue id = do
    i ← or_throw not_found (← gets (λ w. db.find_first (in_org org id) w.issues))
    modify (λ w. record w { issues = db.delete_many (λ j. j.id == i.id) w.issues })
    record_audit c (audit_entry org actor AuditAction.issue_deleted i.id Metadata.nothing)
    emit_to_project org i.project_id (BoardEvent.deleted i.id)
