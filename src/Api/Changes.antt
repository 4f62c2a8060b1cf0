-- ===== src/Api/Changes.antt =====
-- The board under `update`, `move` and `delete` of issues/issues.service.ts.
use ai_saas_multi_tenant.Base.{
  ◌≡◌, refl, sym, ap, ◌∙◌, inl, inr, Bool, arith, ◌==◌, Option-cases, Bool-cases,
}
use mathlib.Core.Path.{subst}
use ai_saas_multi_tenant.Prisma.{Prisma}
use ai_saas_multi_tenant.Prisma.Rows.{In, update_row, map-In, remove-In}
use ai_saas_multi_tenant.Model.Data.{RowId, Issue}
use ai_saas_multi_tenant.Model.World.{World}
use ai_saas_multi_tenant.Model.Action.{Call}
use ai_saas_multi_tenant.Services.Audit.{record_audit}
use ai_saas_multi_tenant.Services.Notifications.{enqueue}
use ai_saas_multi_tenant.Services.Issues.{
  UpdateIssueInput, MoveIssueInput, notify_change, place, in_org, set_fields, set_place, update,
  move, delete_issue,
}
use ai_saas_multi_tenant.Services.Issues.Steps.{
  update_cases, update-found, move-missing, delete_issue-missing, delete_issue-found,
}
use ai_saas_multi_tenant.Services.Issues.Ranks.{
  RanksValid, update-RanksValid, move_between, move-RanksValid, delete_issue-RanksValid,
}
use ai_saas_multi_tenant.Api.Facets.{BoardHealthy}

-- Two rows in one project of one organization, under one number and one identifier.
abbrev SamePlace : Issue → Issue → Type 0
SamePlace i j =
    (i.project_id ≡ j.project_id)
    × (i.organization_id ≡ j.organization_id)
    × (i.number ≡ j.number)
    × (i.id ≡ j.id)

module _ {db : Prisma} (w : World db) (h : BoardHealthy db w) where
  -- Every issue that is stored afterwards is one from before, changed in other columns at most, by
  -- one function.
  module _ (v : World db) (f : Issue → Issue) (place_kept : (i : Issue) → SamePlace (f i) i)
      (from : (i : Issue)
        → In i (db.rows v.issues)
        → (j : Issue) × In j (db.rows w.issues) × (i ≡ f j))
      (projects : v.projects ≡ w.projects) (teams : v.teams ≡ w.teams) where
    origin :
        (i : Issue)
        → In i (db.rows v.issues)
        → (j : Issue) × In j (db.rows w.issues) × (i ≡ f j) × SamePlace i j
    origin i m =
        let (j, n, e) = from i m in (j, n, e, subst (λ k. SamePlace k j) (sym e) (place_kept j))

    pub changed-BoardHealthy : RanksValid db v → BoardHealthy db v
    changed-BoardHealthy ranks = record {
      ranks = ranks;
      counted = λ i p m n same.
          let (j, old, _, (at, _, number, _)) = origin i m in
          let bound =
            h.counted j p old (subst (λ t. In p (db.rows t)) projects n) (sym at ∙ same) in
          omega (arith, bound, number);
      numbered = λ i j m n same number.
          let (i', old_i, e_i, (at_i, _, number_i, _)) = origin i m in
          let (j', old_j, e_j, (at_j, _, number_j, _)) = origin j n in
          e_i
          ∙ ap f (
              h.numbered i' j' old_i old_j (sym at_i ∙ same ∙ at_j)
                (sym number_i ∙ number ∙ number_j))
          ∙ sym e_j;
      project_ids = rw projects h.project_ids;
      issue_ids = λ i j m n same.
          let (i', old_i, e_i, (_, _, _, id_i)) = origin i m in
          let (j', old_j, e_j, (_, _, _, id_j)) = origin j n in
          e_i ∙ ap f (h.issue_ids i' j' old_i old_j (sym id_i ∙ same ∙ id_j)) ∙ sym e_j;
      owned = λ i m.
          let (j, old, _, (at, org, _, _)) = origin i m in
          let (p, n, is, of) = h.owned j old in
          (p, subst (λ t. In p (db.rows t)) (sym projects) n, is ∙ sym at, of ∙ sym org);
      keys = rw projects h.keys;
      teams = rw (projects, teams) h.teams;
    }

  from_update :
      (p : Issue → Bool) (f : Issue → Issue) (v : World db)
      → v.issues ≡ db.update_many p f w.issues
      → (i : Issue) → In i (db.rows v.issues)
      → (j : Issue) × In j (db.rows w.issues) × (i ≡ update_row p f j)
  from_update p f v table i m =
      map-In (update_row p f) (db.rows w.issues)
        (rw (db.rows-update_many p f w.issues) at (subst (λ t. In i (db.rows t)) table m))

  from_delete :
      (p : Issue → Bool) (v : World db)
      → v.issues ≡ db.delete_many p w.issues
      → (i : Issue) → In i (db.rows v.issues)
      → (j : Issue) × In j (db.rows w.issues) × (i ≡ j)
  from_delete p v table i m = (
    i,
    (remove-In p (db.rows w.issues) i
        (rw (db.rows-delete_many p w.issues) at (subst (λ t. In i (db.rows t)) table m))).0,
    refl,
  )

  updated_place :
      (p : Issue → Bool) (f : Issue → Issue)
      → ((i : Issue) → SamePlace (f i) i)
      → (i : Issue) → SamePlace (update_row p f i) i
  updated_place p f keep i = elim (Bool-cases (p i)) [
    | inl hit ↦ rw hit (keep i)
    | inr miss ↦ rw miss (refl, refl, refl, refl)
  ]

  module _ (c : Call) (org actor id : RowId) where
    -- `update`, `move` and `delete` write no project and no team.
    pub update-projects :
        (input : UpdateIssueInput)
        → ((update c org actor id input w).1.projects ≡ w.projects)
          × ((update c org actor id input w).1.teams ≡ w.teams)
    unfolding update record_audit notify_change enqueue
    update-projects input = (ground arith, ground arith)

    pub move-projects :
        (input : MoveIssueInput)
        → ((move c org actor id input w).1.projects ≡ w.projects)
          × ((move c org actor id input w).1.teams ≡ w.teams)
    unfolding move place record_audit
    move-projects input = (ground arith, ground arith)

    pub delete_issue-projects :
        ((delete_issue c org actor id w).1.projects ≡ w.projects)
        × ((delete_issue c org actor id w).1.teams ≡ w.teams)
    unfolding delete_issue record_audit
    delete_issue-projects = (ground arith, ground arith)

    pub update-BoardHealthy :
        (input : UpdateIssueInput) → BoardHealthy db (update c org actor id input w).1
    update-BoardHealthy input = elim (update_cases c org actor id w input) [
      | inl (_, unchanged) ↦ rw unchanged h
      | inr (i, found, linked) ↦
          let v = (update c org actor id input w).1 in
          let f = set_fields input in
          let (projects, teams) = update-projects input in
          changed-BoardHealthy v (update_row (λ j. j.id == id) f)
            (updated_place _ f (λ i. (refl, refl, refl, refl)))
            (from_update _ f v (update-found c org actor id w i found input linked).1) projects
            teams (update-RanksValid w h.ranks c org actor id input)
    ]

    pub move-BoardHealthy :
        (input : MoveIssueInput) → BoardHealthy db (move c org actor id input w).1
    move-BoardHealthy input = elim (Option-cases (db.find_first (in_org org id) w.issues)) [
      | inl missing ↦ rw (move-missing c org actor id w missing input) h
      | inr (i, found) ↦ elim (move_between w h.ranks c org actor id input i found) [
        | inl (_, unchanged) ↦ rw unchanged h
        | inr (_, (t, _, _, _, _, table)) ↦
            let v = (move c org actor id input w).1 in
            let f = set_place input.status t in
            let (projects, teams) = move-projects input in
            changed-BoardHealthy v (update_row (λ j. j.id == i.id) f)
              (updated_place _ f (λ i. (refl, refl, refl, refl))) (from_update _ f v table) projects
              teams (move-RanksValid w h.ranks c org actor id input)
      ]
    ]

    pub delete_issue-BoardHealthy : BoardHealthy db (delete_issue c org actor id w).1
    delete_issue-BoardHealthy = elim (Option-cases (db.find_first (in_org org id) w.issues)) [
      | inl missing ↦ rw (delete_issue-missing c org actor id w missing) h
      | inr (i, found) ↦
          let v = (delete_issue c org actor id w).1 in
          let (projects, teams) = delete_issue-projects in
          changed-BoardHealthy v (λ i. i) (λ i. (refl, refl, refl, refl))
            (from_delete _ v (delete_issue-found c org actor id w i found).1) projects teams
            (delete_issue-RanksValid w h.ranks c org actor id)
    ]
