-- ===== src/Web/Drag/Cards.antt =====
-- The cards of a column of apps/web/components/board.tsx.
use ai_saas_multi_tenant.Base.{
  ℕ, zero, suc, ◌≡◌, inl, inr, true, some, List, [], ◌∷◌, text_ltb, Bool-cases,
}
use ai_saas_multi_tenant.Prisma.Rows.{In-select, In}
use ai_saas_multi_tenant.Model.Data.{IssueRow, IssueStatus, same_status}
use ai_saas_multi_tenant.Web.Drag.{
  is_column, insert_by_rank, sort_by_rank, by_status, get_elem?, before,
}

insert_by_rank-In :
    (i : IssueRow) (js : List IssueRow) (r : IssueRow) → In r (insert_by_rank i js) → In r (i ∷ js)
insert_by_rank-In i [] r m = m
insert_by_rank-In i (j ∷ js) r m = elim (Bool-cases (text_ltb j.rank i.rank)) [
  | inr first ↦ rw first at m
  | inl behind ↦ elim (rw behind at m) [
    | inl e ↦ inr (inl e)
    | inr n ↦ elim (insert_by_rank-In i js r n) [ inl e ↦ inl e | inr k ↦ inr (inr k) ]
  ]
]

sort_by_rank-In : (is : List IssueRow) (r : IssueRow) → In r (sort_by_rank is) → In r is
sort_by_rank-In [] r m = m
sort_by_rank-In (i ∷ is) r m = elim (insert_by_rank-In i (sort_by_rank is) r m) [
  | inl e ↦ inl e
  | inr n ↦ inr (sort_by_rank-In is r n)
]

-- A card of a column is an issue of the board with the column's status.
pub by_status-In :
    (issues : List IssueRow) (status : IssueStatus) (r : IssueRow)
    → In r (by_status issues status)
    → In r issues × (same_status r.status status ≡ true)
unfolding by_status
by_status-In issues status r m = elim (Bool-cases (is_column status)) [
  | inl shown ↦
      In-select (λ i. same_status i.status status) issues r (sort_by_rank-In _ r (rw shown at m))
  | inr hidden ↦ absurd (rw hidden at m)
]

pub get_elem?-In :
    (n : ℕ) (cards : List IssueRow) (r : IssueRow) → get_elem? n cards ≡ some r → In r cards
get_elem?-In n [] r e = cc
get_elem?-In zero (i ∷ is) r e = inl cc
get_elem?-In (suc n) (i ∷ is) r e = inr (get_elem?-In n is r e)

pub before-In :
    (n : ℕ) (cards : List IssueRow) (r : IssueRow) → before n cards ≡ some r → In r cards
before-In zero cards r e = cc
before-In (suc n) cards r e = get_elem?-In n cards r e
