-- ===== src/Services/Issues/Steps.antt =====
-- The branches of the operations of issues/issues.service.ts.
use ai_saas_multi_tenant.Base.{
  ◌≡◌, refl, none, some, arith, ◌==◌, Text, ◌⊎◌, inl, inr, true, false, Option-cases, Bool-cases,
}
use ai_saas_multi_tenant.Prisma.{Prisma}
use ai_saas_multi_tenant.Rank.{Ranked, rank_between}
use ai_saas_multi_tenant.Model.Data.{RowId, Issue, IssueStatus}
use ai_saas_multi_tenant.Model.World.{World}
use ai_saas_multi_tenant.Model.Action.{
  Call, Exception, ok, throw, bad_request, not_found, record_missing,
}
use ai_saas_multi_tenant.Services.Audit.{record_audit}
use ai_saas_multi_tenant.Services.Notifications.{enqueue}
use ai_saas_multi_tenant.Services.Issues.{
  UpdateIssueInput, MoveIssueInput, is_dangling, connected, in_org, set_fields, set_place, rank_of,
  neighbour, update, place, move, delete_issue,
}

module _ {db : Prisma} (c : Call) (org actor : RowId) where
  pub place-rank :
      (i : Issue) (status : IssueStatus) (t : Text) (w : World db)
      → ((place c org actor i status (Ranked.rank t) w).0 ≡ ok (set_place status t i))
        × ((place c org actor i status (Ranked.rank t) w).1.issues
            ≡ db.update_many (λ j. j.id == i.id) (set_place status t) w.issues)
  unfolding place record_audit
  place-rank i status t w = (refl, refl)

  pub place-inverted :
      (i : Issue) (status : IssueStatus) (w : World db)
      → place c org actor i status Ranked.inverted w ≡ (throw bad_request, w)
  unfolding place
  place-inverted i status w = refl

  module _ (id : RowId) (w : World db) where
    module _ (missing : db.find_first (in_org org id) w.issues ≡ none) where
      update-missing :
          (input : UpdateIssueInput) → update c org actor id input w ≡ (throw not_found, w)
      unfolding update
      update-missing input = rw missing

      pub move-missing :
          (input : MoveIssueInput) → move c org actor id input w ≡ (throw not_found, w)
      unfolding move
      move-missing input = rw missing

      pub delete_issue-missing : delete_issue c org actor id w ≡ (throw not_found, w)
      unfolding delete_issue
      delete_issue-missing = rw missing

    module _ (i : Issue) (found : db.find_first (in_org org id) w.issues ≡ some i) where
      update-dangling :
          (input : UpdateIssueInput)
          → is_dangling (connected input) w ≡ true
          → update c org actor id input w ≡ (throw record_missing, w)
      unfolding update
      update-dangling input dangling = rw (found, dangling)

      pub update-found :
          (input : UpdateIssueInput)
          → is_dangling (connected input) w ≡ false
          → ((update c org actor id input w).0 ≡ ok (set_fields input i))
            × ((update c org actor id input w).1.issues
                ≡ db.update_many (λ j. j.id == id) (set_fields input) w.issues)
      unfolding update record_audit enqueue
      update-found input linked = (ground (arith, found, linked), ground (arith, found, linked))

      pub move-found :
          (input : MoveIssueInput)
          → move c org actor id input w
            ≡ place c org actor i input.status
                (rank_between
                  (rank_of (neighbour c org actor i input.status input.above_id w))
                  (rank_of (neighbour c org actor i input.status input.below_id w)))
                w
      unfolding move
      move-found input = rw found

      pub delete_issue-found :
          ((delete_issue c org actor id w).0 ≡ ok tt)
          × ((delete_issue c org actor id w).1.issues ≡ db.delete_many (λ j. j.id == i.id) w.issues)
      unfolding delete_issue record_audit
      delete_issue-found = (ground arith, ground arith)

    -- `update` throws and changes nothing, or it finds the issue and the assignee, if it names one.
    pub update_cases :
        (input : UpdateIssueInput)
        → ((e : Exception) × (update c org actor id input w ≡ (throw e, w)))
          ⊎ ((i : Issue) × (db.find_first (in_org org id) w.issues ≡ some i)
              × (is_dangling (connected input) w ≡ false))
    update_cases input = elim (Option-cases (db.find_first (in_org org id) w.issues)) [
      | inl missing ↦ inl (not_found, update-missing missing input)
      | inr (i, found) ↦ elim (Bool-cases (is_dangling (connected input) w)) [
        | inl dangling ↦ inl (record_missing, update-dangling i found input dangling)
        | inr linked ↦ inr (i, found, linked)
      ]
    ]
