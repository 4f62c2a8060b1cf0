-- ===== src/Services/Issues/Creation.antt =====
-- The outcomes of `create` of issues/issues.service.ts.
use ai_saas_multi_tenant.Base.{
  ℕ, ◌≡◌, refl, ◌⊎◌, inl, inr, Option, none, some, [], ◌∷◌, ◌++◌, arith, ◌==◌, Text, Option-cases,
  Bool-cases, List, true, false,
}
use ai_saas_multi_tenant.Prisma.{Prisma}
use ai_saas_multi_tenant.Rank.{Ranked, rank_between, first_rank}
use ai_saas_multi_tenant.Rank.Between.{rank_between_total}
use ai_saas_multi_tenant.Model.Data.{RowId, Project, Issue, IssueStatus, BoardEvent}
use ai_saas_multi_tenant.Model.World.{World}
use ai_saas_multi_tenant.Model.Action.{
  Call, Exception, ok, throw, not_found, record_missing, constraint_failed,
}
use ai_saas_multi_tenant.Services.Audit.{record_audit}
use ai_saas_multi_tenant.Services.Notifications.{enqueue}
use ai_saas_multi_tenant.Services.Issues.{
  CreateIssueInput, is_dangling, can_label, breaks_reference, selected, find_project, in_column,
  bump, new_issue, insert_issue, notify_assignee, announce, create,
}

module _ {db : Prisma} (project : RowId) (status : IssueStatus) (w : World db) where
  -- The issue that is last in the column, by the order of the database.
  abbrev pub last_in_column : Option Issue
  last_in_column = db.find_greatest (λ (i : Issue). i.rank) (in_column project status) w.issues

  -- The rank is that of an empty column, or one that `rankBetween` returns behind the last issue.
  abbrev pub IsBottomRank : Text → Type 0
  IsBottomRank r =
      ((last_in_column ≡ none) × (r ≡ first_rank))
      ⊎ ((last : Issue) × (last_in_column ≡ some last)
          × (rank_between (some last.rank) none ≡ Ranked.rank r))

module _ {db : Prisma} (c : Call) (org actor : RowId) (key : ℕ) (input : CreateIssueInput)
    (w : World db) where
  -- The row of the project behind the increment.
  abbrev pub counted : Project → Option Project
  counted p =
      db.find_first (λ (q : Project). q.id == p.id)
        (db.update_many (λ q. q.id == p.id) bump w.projects)

  abbrev pub stored_issue : Project → Project → Text → Issue
  stored_issue p q r = new_issue (c.ids 0) org actor p.id q.issue_counter r input

  abbrev pub Stored : Project → Project → Text → Type 0
  Stored p q r =
      ((create c org actor key input w).0 ≡ ok (stored_issue p q r))
      × ((create c org actor key input w).1.issues ≡ db.create (stored_issue p q r) w.issues)
      × ((create c org actor key input w).1.projects
          ≡ db.update_many (λ q. q.id == p.id) bump w.projects)

  abbrev counting : Project → World db
  counting p = record w { projects = db.update_many (λ q. q.id == p.id) bump w.projects }

  -- The increment touches no user and no label.
  can_label-counting :
      (p : Project) (ids : List RowId) → can_label ids (counting p) ≡ can_label ids w
  can_label-counting p [] = refl
  can_label-counting p (id ∷ ids) = rw (can_label-counting p ids)

  is_dangling-counting :
      (p : Project) (a : Option RowId) → is_dangling a (counting p) ≡ is_dangling a w
  is_dangling-counting p none = refl
  is_dangling-counting p (some a) = refl

  references_same : (p : Project) → breaks_reference input (counting p) ≡ breaks_reference input w
  references_same p =
      rw (is_dangling-counting p input.assignee_id, can_label-counting p input.label_ids)

  create-missing :
      find_project org key w ≡ none → create c org actor key input w ≡ (throw not_found, w)
  unfolding create
  create-missing missing = rw missing

  module _ (p : Project) (found : find_project org key w ≡ some p) where
    insert_issue-uncounted :
        counted p ≡ none → (insert_issue c org actor p input w).0 ≡ throw record_missing
    unfolding insert_issue
    insert_issue-uncounted gone = rw gone

    create-uncounted : counted p ≡ none → create c org actor key input w ≡ (throw record_missing, w)
    unfolding create
    create-uncounted gone = ground (arith, insert_issue-uncounted gone)

    module _ (q : Project) (has : counted p ≡ some q) where
      abbrev inserted : Text → World db
      inserted r = record w {
        projects = db.update_many (λ q. q.id == p.id) bump w.projects;
        issues = db.create (stored_issue p q r) w.issues;
      }

      insert_issue-broken :
          (r : Text)
          → IsBottomRank p.id input.status w r
          → breaks_reference input w ≡ true
          → (insert_issue c org actor p input w).0 ≡ throw constraint_failed
      unfolding insert_issue
      insert_issue-broken r (inl (empty, e)) broken = rw (has, empty, references_same p, broken)
      insert_issue-broken r (inr (last, found_last, e)) broken =
          rw (has, found_last, e, references_same p, broken)

      create-broken :
          (r : Text)
          → IsBottomRank p.id input.status w r
          → breaks_reference input w ≡ true
          → create c org actor key input w ≡ (throw constraint_failed, w)
      unfolding create
      create-broken r bottom broken = ground (arith, insert_issue-broken r bottom broken)

      insert_issue-bottom :
          (r : Text)
          → IsBottomRank p.id input.status w r
          → breaks_reference input w ≡ false
          → insert_issue c org actor p input w ≡ (ok (stored_issue p q r), inserted r)
      unfolding insert_issue
      insert_issue-bottom r (inl (empty, e)) linked = rw (has, empty, e, references_same p, linked)
      insert_issue-bottom r (inr (last, found_last, e)) linked =
          rw (has, found_last, e, references_same p, linked)

      create-Stored :
          (r : Text)
          → IsBottomRank p.id input.status w r
          → breaks_reference input w ≡ false
          → Stored p q r
      unfolding create announce record_audit enqueue
      create-Stored r bottom linked = (
        ground (arith, insert_issue-bottom r bottom linked),
        ground (arith, insert_issue-bottom r bottom linked),
        ground (arith, insert_issue-bottom r bottom linked),
      )

      -- One event goes out, to the room of the project.
      pub create-emitted :
          (r : Text)
          → IsBottomRank p.id input.status w r
          → breaks_reference input w ≡ false
          → (create c org actor key input w).1.emitted
            ≡ w.emitted
              ++ record {
                organization_id = org;
                project_id = p.id;
                event = BoardEvent.created (selected (stored_issue p q r));
              }
                ∷ []
      unfolding create announce notify_assignee record_audit enqueue
      create-emitted r bottom linked = ground (arith, insert_issue-bottom r bottom linked)

      IsBottomRank-exists : (r : Text) × IsBottomRank p.id input.status w r
      IsBottomRank-exists = elim (Option-cases (last_in_column p.id input.status w)) [
        | inl empty ↦ (first_rank, inl (empty, refl))
        | inr (last, found_last) ↦ elim (rank_between_total (some last.rank) none) [
          | inl bad ↦ absurd (ground (arith, bad.0))
          | inr good ↦ (good.1.0, inr (last, found_last, good.1.1))
        ]
      ]

  -- `create` throws and changes nothing, or it names stored users and labels and stores one issue, at the bottom rank of its column and
  -- with the number that the counter of the project reaches, and stores the new counter.
  pub create_cases :
      ((e : Exception) × (create c org actor key input w ≡ (throw e, w)))
      ⊎ ((p : Project) × (find_project org key w ≡ some p)
          × ((q : Project) × (counted p ≡ some q)
              × (breaks_reference input w ≡ false)
              × ((r : Text) × IsBottomRank p.id input.status w r × Stored p q r)))
  create_cases = elim (Option-cases (find_project org key w)) [
    | inl missing ↦ inl (not_found, create-missing missing)
    | inr (p, found) ↦ elim (Option-cases (counted p)) [
      | inl gone ↦ inl (record_missing, create-uncounted p found gone)
      | inr (q, has) ↦
          let (r, bottom) = IsBottomRank-exists p found q has in
          elim (Bool-cases (breaks_reference input w)) [
            | inl broken ↦ inl (constraint_failed, create-broken p found q has r bottom broken)
            | inr linked ↦ inr (
              p,
              found,
              (q, has, linked, (r, bottom, create-Stored p found q has r bottom linked)),
            )
          ]
    ]
  ]
