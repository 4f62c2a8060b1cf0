-- ===== src/Services/Issues/Listing.antt =====
-- The board and list view: `list` of apps/api/src/modules/issues/issues.service.ts. The order of the
-- database on status and rank, its search that ignores case, and its cursor are arguments.
pub mod Pages
use ai_saas_multi_tenant.Base.{
  take, ℕ, zero, suc, Bool, true, false, ◌&&◌, ◌||◌, Option, none, some, List, [], ◌∷◌, Text, ◌==◌,
  if◌then◌else◌,
}
use ai_saas_multi_tenant.Prisma.{Prisma}
use ai_saas_multi_tenant.Prisma.Rows.{select}
use ai_saas_multi_tenant.Model.Data.{
  RowId, Project, Issue, IssueStatus, IssuePriority, same_status, same_priority,
}
use ai_saas_multi_tenant.Model.World.{World}
use ai_saas_multi_tenant.Model.Action.{Action, not_found, gets, or_throw, ◌>>=◌}
use ai_saas_multi_tenant.Services.Issues.{find_project, is_assignee}

pub record IssueFilter : Type 0 where
  pub q : Option Text
  pub status : Option IssueStatus
  pub priority : Option IssuePriority
  pub assignee_id : Option RowId
  pub cursor : Option RowId
  pub limit : ℕ

-- A key that the filter leaves out does not restrict.
abbrev pub given {ℓ} : {A : Type ℓ} → (A → Bool) → Option A → Bool
given p none = true
given p (some a) = p a

module _ (contains : Text → Text → Bool) where
  abbrev pub in_description : Text → Option Text → Bool
  in_description q none = false
  in_description q (some d) = contains d q

  -- The empty search is none.
  abbrev pub found_by : Option Text → Issue → Bool
  found_by none i = true
  found_by (some []) i = true
  found_by (some (c ∷ cs)) i = contains i.title (c ∷ cs) || in_description (c ∷ cs) i.description

  -- `where`
  abbrev pub is_listed : RowId → RowId → IssueFilter → Issue → Bool
  is_listed org project filter i =
      i.organization_id == org
      && (i.project_id == project
          && (given (λ s. same_status i.status s) filter.status
              && (given (λ p. same_priority i.priority p) filter.priority
                  && (given (λ a. is_assignee a i.assignee_id) filter.assignee_id
                      && found_by filter.q i))))

-- What the database does for the query: `contains` of a text in a text, `orderBy`, and what it leaves of the ordered
-- rows for a cursor. The order has no column that tells all rows apart, so that nothing is said here of the rows
-- that share the status and the rank of the cursor's.
module _ (contains : Text → Text → Bool) (ordered : List Issue → List Issue)
    (behind : RowId → List Issue → List Issue) where
  -- `cursor: { id }, skip: 1`
  abbrev pub from_cursor : Option RowId → List Issue → List Issue
  from_cursor none is = is
  from_cursor (some id) is = behind id is

  module _ {db : Prisma} where
    -- All rows that the filter selects, in the order of the board.
    abbrev pub listing : RowId → RowId → IssueFilter → World db → List Issue
    listing org project filter w =
        ordered (select (is_listed contains org project filter) (db.rows w.issues))

    unfoldable pub list : RowId → ℕ → IssueFilter → Action db (List Issue)
    list org key filter = do
      p ← or_throw not_found (← gets (find_project org key))
      gets (λ w. take filter.limit (from_cursor filter.cursor (listing org p.id filter w)))
