-- ===== src/Tests/Pages.antt =====
-- The pages of the board at the fixture, with three issues and two in a page.
use ai_saas_multi_tenant.Base.{
  ◌≡◌, ◌↔◌, refl, ap, ◌∙◌, true, false, none, some, List, [], ◌∷◌, ◌++◌, arith, ◌==◌, if◌then◌else◌,
  Text, All, Bool, ==_refl,
}
use mathlib.Core.Path.{subst}
use ai_saas_multi_tenant.Prisma.Memory.{memory}
use ai_saas_multi_tenant.Prisma.Rows.{In}
use ai_saas_multi_tenant.Model.Data.{RowId, Issue}
use ai_saas_multi_tenant.Model.World.{World}
use ai_saas_multi_tenant.Services.Issues.Listing.{IssueFilter, is_listed, listing}
use ai_saas_multi_tenant.Services.Issues.Listing.Pages.{
  DistinctIds, Untied, all_pages, pages_complete,
}
use ai_saas_multi_tenant.Tests.Fixture.{project, issue, world}

abbrev board : World memory
board = record world {
  issues =
      record issue { id = 70 }
      ∷ record issue { id = 71; number = 2; rank = 87 ∷ [] }
      ∷ record issue { id = 72; number = 3; rank = 88 ∷ [] }
      ∷ [];
}

abbrev filter : IssueFilter
filter = record {
  q = none;
  status = none;
  priority = none;
  assignee_id = none;
  cursor = none;
  limit = 2;
}

abbrev contains : Text → Text → Bool
contains q t = true

abbrev as_stored : List Issue → List Issue
as_stored is = is

unfoldable behind : RowId → List Issue → List Issue
behind id [] = []
behind id (i ∷ is) = let later = behind id is in if i.id == id then is else later

All_at :
    (P : Issue → Type 0) (pre : List Issue) (i : Issue) (post : List Issue)
    → All P (pre ++ i ∷ post)
    → P i
All_at P [] i post h = h.0
All_at P (j ∷ pre) i post h = All_at P pre i post h.1

follows :
    (pre : List Issue) (i : Issue) (post : List Issue)
    → DistinctIds (pre ++ i ∷ post)
    → behind i.id (pre ++ i ∷ post) ≡ post
unfolding behind
follows [] i post h = rw (==_refl i.id)
follows (j ∷ pre) i post h =
    let other = All_at (λ (k : Issue). (k.id == j.id) ≡ false) pre i post h.0 in
    let miss : (j.id == i.id) ≡ false = ground (arith, other) in rw miss (follows pre i post h.1)

-- Where rows are tied or not, this cursor follows its row.
seeks :
    (is pre : List Issue) (i : Issue) (post : List Issue)
    → as_stored is ≡ pre ++ i ∷ post
    → DistinctIds (as_stored is)
    → Untied (as_stored is)
    → behind i.id (as_stored is) ≡ post
seeks is pre i post split ids untied =
    ap (behind i.id) split ∙ follows pre i post (subst DistinctIds split ids)

pages_example :
    (all_pages contains as_stored behind 4 5 filter board 4 none
      ≡ some (listing contains as_stored behind 4 60 filter board))
    × DistinctIds (listing contains as_stored behind 4 60 filter board)
    × ((i : Issue)
        → In i (listing contains as_stored behind 4 60 filter board)
          ↔ (In i (memory.rows board.issues) × (is_listed contains 4 60 filter i ≡ true)))
pages_example =
    pages_complete contains as_stored behind 4 5 filter board project seeks (λ is h. h)
      (λ is i. (λ m. m, λ m. m)) refl ((refl, (refl, tt)), ((refl, tt), (tt, tt)))
      ((refl, (refl, tt)), ((refl, tt), (tt, tt))) (omega arith) 4 (omega arith)
