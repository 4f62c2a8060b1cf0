-- ===== src/Web/Drag.antt =====
-- Drag and drop: `byStatus` and `onDragEnd` of apps/web/components/board.tsx. The identifier of a drop
-- target is a column's or a card's; the sort, by insertion, keeps JavaScript's order of the ranks.
pub mod Cards
pub mod Agreement
use ai_saas_multi_tenant.Base.{
  ℕ, zero, suc, ◌≡◌, Bool, true, false, Option, none, some, List, [], ◌∷◌, length, Text, text_ltb,
  text_eq, ◌==◌, if◌then◌else◌,
}
use ai_saas_multi_tenant.Prisma.Rows.{remove, select}
use ai_saas_multi_tenant.Rank.{Ranked, rank_between}
use ai_saas_multi_tenant.Model.Data.{
  RowId, IssueRow, IssueStatus, backlog, todo, in_progress, in_review, done, canceled, same_status,
}
use ai_saas_multi_tenant.Services.Issues.{MoveIssueInput}

-- `COLUMNS`, by membership
abbrev pub is_column : IssueStatus → Bool
is_column backlog = true
is_column todo = true
is_column in_progress = true
is_column in_review = true
is_column done = true
is_column canceled = false

-- `(a, b) => (a.rank < b.rank ? -1 : 1)`; of two equal ranks the card that is earlier in the listing
-- stays so: it is inserted later, and before the other.
abbrev pub insert_by_rank : IssueRow → List IssueRow → List IssueRow
insert_by_rank i [] = i ∷ []
insert_by_rank i (j ∷ js) =
    let deeper = insert_by_rank i js in if text_ltb j.rank i.rank then j ∷ deeper else i ∷ j ∷ js

abbrev pub sort_by_rank : List IssueRow → List IssueRow
sort_by_rank [] = []
sort_by_rank (i ∷ is) = insert_by_rank i (sort_by_rank is)

-- `byStatus.get(status) ?? []`
unfoldable pub by_status : List IssueRow → IssueStatus → List IssueRow
by_status issues status =
    if is_column status then sort_by_rank (select (λ i. same_status i.status status) issues) else []

pub data Over : Type 0 where
  column : IssueStatus → Over
  card : RowId → Over

-- `issues.find((i) => i.id === id)?.status`
abbrev pub status_of : RowId → List IssueRow → Option IssueStatus
status_of id [] = none
status_of id (i ∷ is) = let rest = status_of id is in if i.id == id then some i.status else rest

abbrev pub target_status : List IssueRow → Over → Option IssueStatus
target_status issues (column status) = some status
target_status issues (card id) = status_of id issues

-- `findIndex`, and the length of the column where there is none
abbrev pub index_of : RowId → List IssueRow → ℕ
index_of id [] = 0
index_of id (i ∷ is) = let later = index_of id is in if i.id == id then 0 else suc later

abbrev pub insert_at : Over → List IssueRow → ℕ
insert_at (column _) cards = length cards
insert_at (card id) cards = index_of id cards

abbrev pub get_elem? : ℕ → List IssueRow → Option IssueRow
get_elem? n [] = none
get_elem? zero (i ∷ is) = some i
get_elem? (suc n) (i ∷ is) = get_elem? n is

-- `column[at - 1]`, which is undefined at 0
abbrev pub before : ℕ → List IssueRow → Option IssueRow
before zero cards = none
before (suc n) cards = get_elem? n cards

abbrev pub rank_of : Option IssueRow → Option Text
rank_of none = none
rank_of (some i) = some i.rank

-- `above === below`
abbrev pub same_rank : Option Text → Option Text → Bool
same_rank none none = true
same_rank none (some _) = false
same_rank (some _) none = false
same_rank (some a) (some b) = text_eq a b

abbrev pub id_of : Option IssueRow → Option RowId
id_of none = none
id_of (some i) = some i.id

-- What is passed to `move.mutate`.
pub record MoveVariables : Type 0 where
  pub id : RowId
  pub optimistic_rank : Text
  pub input : MoveIssueInput

abbrev pub variables :
    RowId → IssueStatus → Option IssueRow → Option IssueRow → Ranked → Option MoveVariables
variables active status above below (Ranked.rank t) = some (record {
  id = active;
  optimistic_rank = t;
  input = record { status = status; above_id = id_of above; below_id = id_of below };
})
variables active status above below Ranked.inverted = none
variables active status above below Ranked.out_of_fuel = none

abbrev pub place_between :
    RowId → IssueStatus → Option IssueRow → Option IssueRow → Option MoveVariables
place_between active status above below =
    if same_rank (rank_of above) (rank_of below)
    then none
    else variables active status above below (rank_between (rank_of above) (rank_of below))

unfoldable pub drop_in : List IssueRow → RowId → Over → IssueStatus → Option MoveVariables
drop_in issues active over status =
    let cards = remove (λ i. i.id == active) (by_status issues status) in
    let at = insert_at over cards in
    place_between active status (before at cards) (get_elem? at cards)

-- `none` where the handler returns without a mutation.
unfoldable pub on_drag_end : List IssueRow → RowId → Option Over → Option MoveVariables
unfolding drop_in
on_drag_end issues active none = none
on_drag_end issues active (some over) = elim (target_status issues over) [
  | none ↦ none
  | some status ↦ drop_in issues active over status
]

-- No card but the dragged one is in the column.
abbrev pub IsEmptyColumn : List IssueRow → RowId → IssueStatus → Type 0
IsEmptyColumn issues active status = remove (λ i. i.id == active) (by_status issues status) ≡ []

-- A drop on a column that has no other card makes no mutation, so that the card does not get there.
pub drag_to_empty :
    (issues : List IssueRow) (active : RowId) (status : IssueStatus)
    → IsEmptyColumn issues active status
    → on_drag_end issues active (some (column status)) ≡ none
unfolding on_drag_end drop_in
drag_to_empty issues active status empty = rw (empty)
