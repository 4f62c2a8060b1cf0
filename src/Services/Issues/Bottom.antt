-- ===== src/Services/Issues/Bottom.antt =====
-- The place of a new issue in its column: `create` of issues/issues.service.ts with rank.ts.
use ai_saas_multi_tenant.Base.{
  ℕ, ◌≡◌, refl, sym, ◌∙◌, ◌⊎◌, inl, inr, true, false, none, some, [], ◌∷◌, arith, Text, text_ltb,
  All,
}
use ai_saas_multi_tenant.Prisma.{Prisma}
use ai_saas_multi_tenant.Prisma.Rows.{All_lookup, All-weaken}
use ai_saas_multi_tenant.Rank.{Ranked, rank_between}
use ai_saas_multi_tenant.Rank.Loop.{IsRank}
use ai_saas_multi_tenant.Rank.Between.{rank_between_bounds}
use ai_saas_multi_tenant.Model.Data.{RowId, Project, Issue, IssueStatus}
use ai_saas_multi_tenant.Model.World.{World}
use ai_saas_multi_tenant.Model.Action.{Call, Exception, ok, throw}
use ai_saas_multi_tenant.Services.Issues.{CreateIssueInput, find_project, in_column, create}
use ai_saas_multi_tenant.Services.Issues.Creation.{IsBottomRank, create_cases}
use ai_saas_multi_tenant.Services.Issues.Ranks.{RanksValid}

-- A text that is not above another is below every text above that one.
text_ltb_through : (a b t : Text) → text_ltb a b ≡ false → text_ltb a t ≡ true → text_ltb b t ≡ true
text_ltb_through [] [] t low up = up
text_ltb_through [] (y ∷ b) t low up = absurd (ground (arith, low))
text_ltb_through (x ∷ a) b [] low up = absurd (ground (arith, up))
text_ltb_through (x ∷ a) [] (z ∷ t) low up = refl
text_ltb_through (x ∷ a) (y ∷ b) (z ∷ t) low up =
    let tails = text_ltb_through a b t in ground (arith, tails, low, up)

module _ {db : Prisma} (binary : (s t : Text) → db.collate s t ≡ text_ltb s t) (w : World db)
    (valid : RanksValid db w) where
  above_last :
      (a r : Text) → IsRank a → rank_between (some a) none ≡ Ranked.rank r → text_ltb a r ≡ true
  above_last a r is_rank e = (rank_between_bounds (some a) none r is_rank tt e).0

  bottom_above :
      (project : RowId) (status : IssueStatus) (r : Text)
      → IsBottomRank project status w r
      → All
          (λ (j : Issue). in_column project status j ≡ true → text_ltb j.rank r ≡ true)
          (db.rows w.issues)
  bottom_above project status r (inl (empty, e)) =
      All-weaken _ _ (db.rows w.issues) (λ j out inside. absurd (ground (arith, out, inside)))
        (db.find_greatest-none (λ (i : Issue). i.rank) (in_column project status) w.issues empty)
  bottom_above project status r (inr (last, found, e)) =
      let (m, _, greatest) =
        db.find_greatest-some (λ (i : Issue). i.rank) (in_column project status) w.issues found in
      let above = above_last last.rank r (All_lookup _ (db.rows w.issues) valid m) e in
      All-weaken _ _ (db.rows w.issues)
        (λ j most inside.
          text_ltb_through last.rank j.rank r (sym (binary last.rank j.rank) ∙ most inside) above)
        greatest

-- Where the database compares texts by their code units and every stored rank has the form that `rankBetween` needs:
-- `create` throws and changes nothing, or it stores and returns an issue of the project and the column asked for, whose
-- rank is strictly greater than every rank that the column had.
pub create_last :
    {db : Prisma} (c : Call) (org actor : RowId) (key : ℕ) (input : CreateIssueInput) (w : World db)
    → ((s t : Text) → db.collate s t ≡ text_ltb s t)
    → RanksValid db w
    → ((e : Exception) × (create c org actor key input w ≡ (throw e, w)))
      ⊎ ((p : Project) × (find_project org key w ≡ some p)
          × ((i : Issue) × ((create c org actor key input w).0 ≡ ok i)
              × ((create c org actor key input w).1.issues ≡ db.create i w.issues)
              × (in_column p.id input.status i ≡ true)
              × All
                  (λ (j : Issue).
                    in_column p.id input.status j ≡ true → text_ltb j.rank i.rank ≡ true)
                  (db.rows w.issues)))
create_last c org actor key input w binary valid = elim (create_cases c org actor key input w) [
  | inl failed ↦ inl failed
  | inr (p, found, (q, has, linked, (r, bottom, (answer, stored, _)))) ↦ inr (
    p,
    found,
    (_, answer, stored, ground arith, bottom_above binary w valid p.id input.status r bottom),
  )
]
