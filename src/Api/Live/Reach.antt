-- ===== src/Api/Live/Reach.antt =====
-- An open board while any requests are served.
use ai_saas_multi_tenant.Base.{
  ℕ, ◌≡◌, refl, sym, ap, ◌∙◌, inl, inr, true, List, [], ◌∷◌, ◌++◌, append_assoc, Perm, arith, ◌==◌,
  Bool-cases, if◌then◌else◌,
}
use mathlib.Core.Path.{subst}
use ai_saas_multi_tenant.Prisma.{Prisma}
use ai_saas_multi_tenant.Prisma.Rows.{In, update_row, In_map, In_append}
use ai_saas_multi_tenant.Model.Data.{RowId, Project, Issue, IssueRow, Emission}
use ai_saas_multi_tenant.Model.World.{World}
use ai_saas_multi_tenant.Model.Platform.{External, Env}
use ai_saas_multi_tenant.Model.Action.{Call, Result}
use ai_saas_multi_tenant.Services.Issues.{CreateIssueInput, bump, create}
use ai_saas_multi_tenant.Services.Issues.Creation.{create_cases}
use ai_saas_multi_tenant.Api.Facets.{BoardHealthy, Healthy, IsFresh}
use ai_saas_multi_tenant.Api.Requests.{
  Request, create_project, create_issue, update_issue, move_issue, delete_issue, serve,
}
use ai_saas_multi_tenant.Api.Frames.{writes_board, edits_issues, board_same, issues_same}
use ai_saas_multi_tenant.Api.Changes.{update-projects, move-projects, delete_issue-projects}
use ai_saas_multi_tenant.Api.NewProject.{create_project-projects}
use ai_saas_multi_tenant.Api.Reach.{Reach, here, served, Reach-Healthy}
use ai_saas_multi_tenant.Api.Live.{in_room, apply_all, cards_of, IsProject, IsLive, IsShown}
use ai_saas_multi_tenant.Api.Live.Orders.{apply_all-Perm}
use ai_saas_multi_tenant.Api.Live.Rooms.{same-IsLive}
use ai_saas_multi_tenant.Api.Live.Changes.{
  delete_issue-IsLive, move-IsLive, update-IsLive, create-IsLive,
}
use ai_saas_multi_tenant.Web.Cache.{apply_event}

counted_up_kept :
    (id : RowId) (p : Project)
    → let q = update_row (λ (q : Project). q.id == id) bump p in
      (q.id ≡ p.id) × (q.organization_id ≡ p.organization_id)
counted_up_kept id p = (ground arith, ground arith)

module _ (org k : RowId) where
  apply_all-append :
      (es fs : List Emission) (l : List IssueRow)
      → apply_all org k (es ++ fs) l ≡ apply_all org k fs (apply_all org k es l)
  unfolding apply_all
  apply_all-append [] fs l = refl
  apply_all-append (e ∷ es) fs l =
      apply_all-append es fs (if in_room org k e then apply_event e.event l else l)

  module _ {db : Prisma} where
    IsLive-trans : (u v w : World db) → IsLive org k u v → IsLive org k v w → IsLive org k u w
    IsLive-trans u v w (es, emitted, rows) (fs, emitted', rows') = (
      es ++ fs,
      emitted' ∙ ap (λ l. l ++ fs) emitted ∙ append_assoc u.emitted es fs,
      apply_all-append es fs (cards_of k u) ∙ ap (apply_all org k fs) rows ∙ rows',
    )

    -- A project stays one where each row stays under its id and its organization.
    kept-IsProject :
        (w v : World db) (f : Project → Project)
        → ((p : Project) → ((f p).id ≡ p.id) × ((f p).organization_id ≡ p.organization_id))
        → ((p : Project) → In p (db.rows w.projects) → In (f p) (db.rows v.projects))
        → IsProject org k w
        → IsProject org k v
    kept-IsProject w v f keep stays (p, m, is, of) =
        (f p, stays p m, (keep p).0 ∙ is, (keep p).1 ∙ of)

    same-IsProject :
        (w v : World db) → v.projects ≡ w.projects → IsProject org k w → IsProject org k v
    same-IsProject w v same =
        kept-IsProject w v (λ p. p) (λ p. (refl, refl))
          (λ p m. subst (λ t. In p (db.rows t)) (sym same) m)

    create-IsProject :
        (c : Call) (o actor : RowId) (key : ℕ) (input : CreateIssueInput) (w : World db)
        → IsProject org k w
        → IsProject org k (create c o actor key input w).1
    create-IsProject c o actor key input w room = elim (create_cases c o actor key input w) [
      | inl (e, unchanged) ↦
          subst (λ (r : Result Issue × World db). IsProject org k r.1) (sym unchanged) room
      | inr (p, _, (_, _, _, (_, _, (_, _, projects)))) ↦
          let at = λ (q : Project). q.id == p.id in
          kept-IsProject w (create c o actor key input w).1 (update_row at bump)
            (counted_up_kept p.id)
            (λ q m.
              subst (λ t. In (update_row at bump q) (db.rows t)) (sym projects)
                (rw (db.rows-update_many at bump w.projects)
                  (In_map (update_row at bump) (db.rows w.projects) q m)))
            room
    ]

module _ (x : External) (env : Env) {db : Prisma} (org k : RowId) where
  module _ (c : Call) (w : World db) (h : BoardHealthy db w) (fresh : IsFresh db c w)
      (room : IsProject org k w) where
    rows_written : (r : Request) → writes_board r ≡ true → IsProject org k (serve x env c r w)
    unfolding serve
    rows_written (create_project o actor input) e =
        elim (create_project-projects w h c fresh o actor input) [
          | inl same ↦
              same-IsProject org k w (serve x env c (create_project o actor input) w) same room
          | inr added ↦
              kept-IsProject org k w (serve x env c (create_project o actor input) w) (λ p. p)
                (λ p. (refl, refl))
                (λ p m.
                  subst (λ t. In p (db.rows t)) (sym added)
                    (rw (db.rows-create _ w.projects) (In_append (db.rows w.projects) p _ m)))
                room
        ]
    rows_written (create_issue o actor key input) e =
        create-IsProject org k c o actor key input w room
    rows_written (update_issue o actor id input) e =
        same-IsProject org k w (serve x env c (update_issue o actor id input) w)
          (update-projects w h c o actor id input).0 room
    rows_written (move_issue o actor id input) e =
        same-IsProject org k w (serve x env c (move_issue o actor id input) w)
          (move-projects w h c o actor id input).0 room
    rows_written (delete_issue o actor id) e =
        same-IsProject org k w (serve x env c (delete_issue o actor id) w)
          (delete_issue-projects w h c o actor id).0 room
    rows_written _ e = absurd cc

    serve-IsProject : (r : Request) → IsProject org k (serve x env c r w)
    serve-IsProject r = elim (Bool-cases (writes_board r)) [
      | inl writes ↦ rows_written r writes
      | inr other ↦ same-IsProject org k w (serve x env c r w) (board_same x env c w r other).1 room
    ]

    issues_edited : (r : Request) → edits_issues r ≡ true → IsLive org k w (serve x env c r w)
    unfolding serve
    issues_edited (create_issue o actor key input) e =
        create-IsLive w org k h room c fresh o actor key input
    issues_edited (update_issue o actor id input) e =
        update-IsLive w org k h room c o actor id input
    issues_edited (move_issue o actor id input) e = move-IsLive w org k h room c o actor id input
    issues_edited (delete_issue o actor id) e = delete_issue-IsLive w org k h room c o actor id
    issues_edited _ e = absurd cc

    serve-IsLive : (r : Request) → IsLive org k w (serve x env c r w)
    serve-IsLive r = elim (Bool-cases (edits_issues r)) [
      | inl writes ↦ issues_edited r writes
      | inr other ↦
          let (issues, emitted) = issues_same x env c w r other in
          same-IsLive w org k (serve x env c r w) emitted issues
    ]

  Reach-Live :
      (start w : World db)
      → Healthy db start
      → IsProject org k start
      → Reach x env start w
      → IsProject org k w × IsLive org k start w
  Reach-Live start w h room here = (room, same-IsLive start org k start refl refl)
  Reach-Live start w h room (served c r v before fresh) =
      let (room', live) = Reach-Live start v h room before in
      let healthy = Reach-Healthy x env start v h before in
      (
        serve-IsProject c v healthy.board fresh room' r,
        IsLive-trans org k start v (serve x env c r v) live
            (serve-IsLive c v healthy.board fresh room' r),
      )

  -- A browser whose cache holds, in any order, what `issueSelect` selects of all the issues of a project,
  -- the times of creation and update left aside, and which then applies to it, in order, the events that
  -- are emitted to the project's room, holds the same of all issues that the project has then, each as
  -- often as it is stored, whatever requests are served meanwhile, in any order and also to other
  -- boards. The state before must be in order, and the identifiers that each call creates not in use.
  pub Reach-IsShown :
      (start w : World db) (l : List IssueRow)
      → Healthy db start
      → IsProject org k start
      → Perm l (cards_of k start)
      → Reach x env start w
      → IsShown org k l start w
  Reach-IsShown start w l h room same reached =
      let (es, emitted, lists) = (Reach-Live start w h room reached).1 in
      (es, emitted, subst (λ m. Perm (apply_all org k es l) m) lists (apply_all-Perm org k es same))
