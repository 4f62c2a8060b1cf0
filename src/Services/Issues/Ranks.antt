-- ===== src/Services/Issues/Ranks.antt =====
-- The stored ranks under the operations of issues/issues.service.ts.
use ai_saas_multi_tenant.Base.{
  ℕ, ◌≡◌, sym, ◌⊎◌, inl, inr, Bool, true, false, ◌&&◌, Option, none, some, ◌==◌, Text, Option-cases,
  Bool-cases, All,
}
use mathlib.Core.Path.{subst}
use ai_saas_multi_tenant.Prisma.{Prisma}
use ai_saas_multi_tenant.Prisma.Rows.{All-map, All-append, All-remove, All_lookup, update_row}
use ai_saas_multi_tenant.Rank.{is_inverted}
use ai_saas_multi_tenant.Rank.Loop.{IsRank}
use ai_saas_multi_tenant.Rank.Between.{
  Above, Below, IsBound, rank_between_bounds, rank_between_total, rank_between-IsRank,
  first_rank-IsRank,
}
use ai_saas_multi_tenant.Model.Data.{RowId, Issue, IssueStatus}
use ai_saas_multi_tenant.Model.World.{World}
use ai_saas_multi_tenant.Model.Action.{Call, ok, throw, bad_request}
use ai_saas_multi_tenant.Services.Issues.{
  CreateIssueInput, UpdateIssueInput, MoveIssueInput, in_org, in_column, set_fields, set_place,
  rank_of, neighbour, create, update, move, delete_issue,
}
use ai_saas_multi_tenant.Services.Issues.Steps.{
  place-rank, place-inverted, update_cases, update-found, move-missing, move-found,
  delete_issue-missing, delete_issue-found,
}
use ai_saas_multi_tenant.Services.Issues.Creation.{IsBottomRank, create_cases}

-- Every stored rank has the form that `rankBetween` needs.
abbrev pub RanksValid : (db : Prisma) → World db → Type 0
RanksValid db w = All (λ (i : Issue). IsRank i.rank) (db.rows w.issues)

module _ {db : Prisma} (w : World db) (valid : RanksValid db w) where
  found-IsRank : (p : Issue → Bool) {i : Issue} → db.find_first p w.issues ≡ some i → IsRank i.rank
  found-IsRank p e = All_lookup _ (db.rows w.issues) valid (db.find_first-some p w.issues e).0

  bottom-IsRank :
      (project : RowId) (status : IssueStatus) (r : Text)
      → IsBottomRank project status w r
      → IsRank r
  bottom-IsRank project status r (inl (_, e)) = subst IsRank (sym e) first_rank-IsRank
  bottom-IsRank project status r (inr (last, _, e)) = rank_between-IsRank (some last.rank) none r e

  updated-RanksValid :
      (p : Issue → Bool) (f : Issue → Issue)
      → ((i : Issue) → IsRank i.rank → IsRank (f i).rank)
      → All (λ (i : Issue). IsRank i.rank) (db.rows (db.update_many p f w.issues))
  updated-RanksValid p f keep =
      rw (db.rows-update_many p f w.issues)
        (All-map _ _ (update_row p f) (db.rows w.issues) (kept) valid)
    where
      kept : (i : Issue) → IsRank i.rank → IsRank (update_row p f i).rank
      kept i h = elim (Bool-cases (p i)) [ inl hit ↦ rw hit (keep i h) | inr miss ↦ rw miss h ]

  module _ (c : Call) (org actor : RowId) where
    -- `create` keeps every stored rank in the form that `rankBetween` needs, whether it throws or not.
    pub create-RanksValid :
        (key : ℕ) (input : CreateIssueInput) → RanksValid db (create c org actor key input w).1
    create-RanksValid key input = elim (create_cases c org actor key input w) [
      | inl (e, unchanged) ↦ rw unchanged valid
      | inr (p, found, (q, has, linked, (r, bottom, (_, stored, _)))) ↦
          subst (λ t. All (λ (i : Issue). IsRank i.rank) (db.rows t)) (sym stored)
            (rw (db.rows-create _ w.issues)
              (All-append _ (db.rows w.issues) valid (bottom-IsRank p.id input.status r bottom)))
    ]

    neighbour-IsBound :
        (i : Issue) (status : IssueStatus) (id : Option RowId)
        → IsBound (rank_of (neighbour c org actor i status id w))
    neighbour-IsBound i status none = tt
    neighbour-IsBound i status (some id) =
        elim (Option-cases (neighbour c org actor i status (some id) w)) [
          | inl missing ↦ rw missing tt
          | inr (j, found) ↦
              rw found (found-IsRank (λ j. j.id == id && in_column i.project_id status j) found)
        ]

    -- Where every stored rank has the form that `rankBetween` needs: `move` of a known issue places it
    -- strictly between the ranks of the neighbours that are found in its project and the target column,
    -- in that column, and writes only the status and the rank, of the rows with its id; or, exactly
    -- where the upper neighbour does not sort before the lower, it throws and changes nothing.
    pub move_between :
        (id : RowId) (input : MoveIssueInput) (i : Issue)
        → db.find_first (in_org org id) w.issues ≡ some i
        → let above = rank_of (neighbour c org actor i input.status input.above_id w) in
          let below = rank_of (neighbour c org actor i input.status input.below_id w) in
          ((is_inverted above below ≡ true)
            × (move c org actor id input w ≡ (throw bad_request, w)))
          ⊎ ((is_inverted above below ≡ false)
              × ((t : Text) × IsRank t
                  × Above above t
                  × Below below t
                  × ((move c org actor id input w).0 ≡ ok (set_place input.status t i))
                  × ((move c org actor id input w).1.issues
                      ≡ db.update_many (λ j. j.id == i.id) (set_place input.status t) w.issues)))
    move_between id input i found =
        let above = rank_of (neighbour c org actor i input.status input.above_id w) in
        let below = rank_of (neighbour c org actor i input.status input.below_id w) in
        let moved = move-found c org actor id w i found input in
        elim (rank_between_total above below) [
          | inl (bad, e) ↦ inl (bad, rw (moved, e) (place-inverted c org actor i input.status w))
          | inr (good, (t, e, is_rank)) ↦
              let (up, down) =
                rank_between_bounds above below t (neighbour-IsBound i input.status input.above_id)
                  (neighbour-IsBound i input.status input.below_id) e in
              let (result, table) = place-rank c org actor i input.status t w in
              inr (good, (t, is_rank, up, down, rw (moved, e) result, rw (moved, e) table))
        ]

    pub update-RanksValid :
        (id : RowId) (input : UpdateIssueInput) → RanksValid db (update c org actor id input w).1
    update-RanksValid id input = elim (update_cases c org actor id w input) [
      | inl (_, unchanged) ↦ rw unchanged valid
      | inr (i, found, linked) ↦
          subst (λ t. All (λ (i : Issue). IsRank i.rank) (db.rows t))
            (sym (update-found c org actor id w i found input linked).1)
            (updated-RanksValid _ (set_fields input) (λ i h. h))
    ]

    pub move-RanksValid :
        (id : RowId) (target : MoveIssueInput) → RanksValid db (move c org actor id target w).1
    move-RanksValid id target = elim (Option-cases (db.find_first (in_org org id) w.issues)) [
      | inl missing ↦ rw (move-missing c org actor id w missing target) valid
      | inr (i, found) ↦ elim (move_between id target i found) [
        | inl (_, e) ↦ rw e valid
        | inr (_, (t, is_rank, _, _, _, table)) ↦
            subst (λ t. All (λ (i : Issue). IsRank i.rank) (db.rows t)) (sym table)
              (updated-RanksValid _ (set_place target.status t) (λ i h. is_rank))
      ]
    ]

    pub delete_issue-RanksValid : (id : RowId) → RanksValid db (delete_issue c org actor id w).1
    delete_issue-RanksValid id = elim (Option-cases (db.find_first (in_org org id) w.issues)) [
      | inl missing ↦ rw (delete_issue-missing c org actor id w missing) valid
      | inr (i, found) ↦
          subst (λ t. All (λ (i : Issue). IsRank i.rank) (db.rows t))
            (sym (delete_issue-found c org actor id w i found).1)
            (rw (db.rows-delete_many _ w.issues) (All-remove _ _ (db.rows w.issues) valid))
    ]

    -- `update`, `move` and `delete` keep every stored rank in the form that `rankBetween` needs, on
    -- every branch.
    pub changes-RanksValid :
        (id : RowId) (input : UpdateIssueInput) (target : MoveIssueInput)
        → RanksValid db (update c org actor id input w).1
          × RanksValid db (move c org actor id target w).1
          × RanksValid db (delete_issue c org actor id w).1
    changes-RanksValid id input target =
        (update-RanksValid id input, move-RanksValid id target, delete_issue-RanksValid id)
