-- ===== src/Tests/Drops.antt =====
-- A card that is dropped above another, in a column of the fixture's project.
use ai_saas_multi_tenant.Base.{
  ◌≡◌, refl, sym, ap, ◌∙◌, inl, inr, none, some, List, [], ◌∷◌, ◌++◌, arith,
}
use ai_saas_multi_tenant.Prisma.Memory.{memory}
use ai_saas_multi_tenant.Prisma.Rows.{In}
use ai_saas_multi_tenant.Rank.{char, digit, digit_at, between_loop, rank_between}
use ai_saas_multi_tenant.Model.Data.{Issue, IssueRow, IssueStatus, BoardEvent}
use ai_saas_multi_tenant.Model.World.{World}
use ai_saas_multi_tenant.Model.Action.{ok}
use ai_saas_multi_tenant.Services.Issues.{selected, set_place, move}
use ai_saas_multi_tenant.Services.Issues.Tenancy.{UniqueIssue}
use ai_saas_multi_tenant.Web.Cache.{apply_event, on_mutate_move}
use ai_saas_multi_tenant.Web.Drag.{Over, MoveVariables, by_status, drop_in, on_drag_end}
use ai_saas_multi_tenant.Web.Drag.Agreement.{IsCard, drag-agrees}
use ai_saas_multi_tenant.Tests.Fixture.{call, issue, world}

abbrev finished : Issue
finished = record issue { id = 71; status = IssueStatus.done }

abbrev cards : List IssueRow
cards = selected issue ∷ selected finished ∷ []

abbrev board : World memory
board = record world { issues = issue ∷ finished ∷ [] }

abbrev dropped : MoveVariables
dropped = record {
  id = 70;
  optimistic_rank = 70 ∷ [];
  input = record { status = IssueStatus.done; above_id = none; below_id = some 71 };
}

board-UniqueIssue : UniqueIssue memory board
board-UniqueIssue i j (inl e) (inl f) same = e ∙ sym f
board-UniqueIssue i j (inl e) (inr (inl f)) same =
    let a = ap (λ (i : Issue). i.id) e in
    let b = ap (λ (i : Issue). i.id) f in absurd (omega (arith, a, b, same))
board-UniqueIssue i j (inr (inl e)) (inl f) same =
    let a = ap (λ (i : Issue). i.id) e in
    let b = ap (λ (i : Issue). i.id) f in absurd (omega (arith, a, b, same))
board-UniqueIssue i j (inr (inl e)) (inr (inl f)) same = e ∙ sym f
board-UniqueIssue i j (inr (inr m)) n same = absurd m
board-UniqueIssue i j (inl e) (inr (inr n)) same = absurd n
board-UniqueIssue i j (inr (inl e)) (inr (inr n)) same = absurd n

in_sync : (r : IssueRow) → In r cards → IsCard board 4 60 r
in_sync r (inl e) = (issue, (inl refl, sym e, refl, refl))
in_sync r (inr (inl e)) = (finished, (inr (inl refl), sym e, refl, refl))
in_sync r (inr (inr m)) = absurd m

asks : on_drag_end cards 70 (some (Over.card 71)) ≡ some dropped
unfolding on_drag_end drop_in by_status rank_between between_loop digit_at digit char
asks = refl

agrees_example :
    ((move call 4 1 70 dropped.input board).0 ≡ ok (set_place IssueStatus.done (70 ∷ []) issue))
    × ((move call 4 1 70 dropped.input board).1.emitted
        ≡ []
          ++ record {
            organization_id = 4;
            project_id = 60;
            event = BoardEvent.moved 70 IssueStatus.done (70 ∷ []);
          }
            ∷ [])
    × ((on_mutate_move 70 dropped.input (70 ∷ []) (some cards)).cache
        ≡ some (apply_event (BoardEvent.moved 70 IssueStatus.done (70 ∷ [])) cards))
agrees_example =
    drag-agrees call 4 1 60 board cards issue (Over.card 71) dropped board-UniqueIssue in_sync
      (inl refl) (inl refl) asks
