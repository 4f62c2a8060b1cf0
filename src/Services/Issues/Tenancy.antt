-- ===== src/Services/Issues/Tenancy.antt =====
-- The issues of other tenants under `update`, `move` and `remove` of issues/issues.service.ts.
use ai_saas_multi_tenant.Base.{
  ◌≡◌, ◌≢◌, sym, ap, ◌∙◌, inl, inr, false, some, map, arith, ◌==◌, ==_iff, Option-cases, Bool-cases,
}
use mathlib.Core.Path.{subst}
use ai_saas_multi_tenant.Prisma.{Prisma}
use ai_saas_multi_tenant.Prisma.Rows.{In, In_map, In_remove, update_row}
use ai_saas_multi_tenant.Model.Data.{RowId, Issue}
use ai_saas_multi_tenant.Model.World.{World}
use ai_saas_multi_tenant.Model.Action.{Call, throw, bad_request}
use ai_saas_multi_tenant.Services.Issues.{
  UpdateIssueInput, MoveIssueInput, in_org, set_fields, set_place, rank_of, neighbour, update, move,
  delete_issue,
}
use ai_saas_multi_tenant.Rank.Between.{rank_between_total}
use ai_saas_multi_tenant.Services.Issues.Steps.{
  place-rank, place-inverted, update_cases, update-found, move-missing, move-found,
  delete_issue-missing, delete_issue-found,
}

-- `id` is the primary key.
abbrev pub UniqueIssue : (db : Prisma) → World db → Type 0
UniqueIssue db w =
    (i j : Issue) → In i (db.rows w.issues) → In j (db.rows w.issues) → i.id ≡ j.id → i ≡ j

module _ {db : Prisma} (c : Call) (org actor id : RowId) (w : World db) (r : Issue)
    (unique : UniqueIssue db w) (stored : In r (db.rows w.issues))
    (foreign : r.organization_id ≢ org) where
  kept_by_update :
      (key : RowId) (f : Issue → Issue)
      → (r.id == key) ≡ false
      → In r (db.rows (db.update_many (λ j. j.id == key) f w.issues))
  kept_by_update key f miss =
      let same : update_row (λ j. j.id == key) f r ≡ r = rw miss in
      rw (db.rows-update_many _ _ w.issues) (
        subst (λ x. In x (map (update_row (λ j. j.id == key) f) (db.rows w.issues))) same
          (In_map _ _ r stored))

  kept_by_delete :
      (key : RowId)
      → (r.id == key) ≡ false
      → In r (db.rows (db.delete_many (λ j. j.id == key) w.issues))
  kept_by_delete key miss = rw (db.rows-delete_many _ w.issues) (In_remove _ _ r stored miss)

  module _ (i : Issue) (found : db.find_first (in_org org id) w.issues ≡ some i) where
    found_at : (i.id ≡ id) × (i.organization_id ≡ org)
    found_at =
        let (_, holds) = db.find_first-some (in_org org id) w.issues found in
        (ground (arith, holds), ground (arith, holds))

    other_id : (r.id == i.id) ≡ false
    other_id = elim (Bool-cases (r.id == i.id)) [
      | inr miss ↦ miss
      | inl hit ↦
          let (in_i, _) = db.find_first-some (in_org org id) w.issues found in
          let same : r ≡ i = unique r i stored in_i ((==_iff _ _).0 hit) in
          absurd (foreign (ap (λ (x : Issue). x.organization_id) same ∙ found_at.1))
    ]

    other_key : (r.id == id) ≡ false
    other_key = subst (λ key. (r.id == key) ≡ false) found_at.0 other_id

    moved_foreign :
        (target : MoveIssueInput) → In r (db.rows (move c org actor id target w).1.issues)
    moved_foreign target =
        elim (rank_between_total (rank_of (neighbour c org actor i target.status target.above_id w))
          (rank_of (neighbour c org actor i target.status target.below_id w))) [
            | inl (_, e) ↦
                let unchanged : move c org actor id target w ≡ (throw bad_request, w) =
                  rw (move-found c org actor id w i found target, e)
                    (place-inverted c org actor i target.status w) in
                rw unchanged stored
            | inr (_, (t, e, _)) ↦
                rw (move-found c org actor id w i found target, e)
                  (subst (λ s. In r (db.rows s))
                    (sym (place-rank c org actor i target.status t w).1)
                    (kept_by_update i.id (set_place target.status t) other_id))
          ]

  updated_foreign :
      (input : UpdateIssueInput) → In r (db.rows (update c org actor id input w).1.issues)
  updated_foreign input = elim (update_cases c org actor id w input) [
    | inl (_, unchanged) ↦ rw unchanged stored
    | inr (i, found, linked) ↦
        subst (λ t. In r (db.rows t)) (sym (update-found c org actor id w i found input linked).1)
          (kept_by_update id (set_fields input) (other_key i found))
  ]

  -- `update`, `move` and `remove` for one organization keep every stored issue of another organization
  -- as it is, on every branch, where the ids of issues are unique.
  pub changes-foreign :
      (input : UpdateIssueInput) (target : MoveIssueInput)
      → In r (db.rows (update c org actor id input w).1.issues)
        × In r (db.rows (move c org actor id target w).1.issues)
        × In r (db.rows (delete_issue c org actor id w).1.issues)
  changes-foreign input target = elim (Option-cases (db.find_first (in_org org id) w.issues)) [
    | inl missing ↦ (
      updated_foreign input,
      rw (move-missing c org actor id w missing target) stored,
      rw (delete_issue-missing c org actor id w missing) stored,
    )
    | inr (i, found) ↦ (
      updated_foreign input,
      moved_foreign i found target,
      subst (λ t. In r (db.rows t)) (sym (delete_issue-found c org actor id w i found).1)
          (kept_by_delete i.id (other_id i found)),
    )
  ]
