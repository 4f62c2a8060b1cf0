-- ===== src/Api/Live/Rooms.antt =====
-- The room of a project: which emissions go there, and what they leave of its board.
use ai_saas_multi_tenant.Base.{
  ◌≡◌, sym, ap, ◌∙◌, inl, inr, true, false, [], ◌∷◌, ◌++◌, append-nil, map, arith, ◌==◌, ==_iff,
  ==_refl, Bool-cases,
}
use ai_saas_multi_tenant.Prisma.{Prisma}
use ai_saas_multi_tenant.Prisma.Rows.{In, select, In-select}
use ai_saas_multi_tenant.Model.Data.{RowId, Project, Issue, BoardEvent, Emission}
use ai_saas_multi_tenant.Model.World.{World}
use ai_saas_multi_tenant.Services.Issues.{selected}
use ai_saas_multi_tenant.Web.Sync.{rows_of}
use ai_saas_multi_tenant.Web.Cache.{apply_event}
use ai_saas_multi_tenant.Api.Facets.{BoardHealthy}
use ai_saas_multi_tenant.Api.Live.{in_room, apply_all, cards_of, IsProject, IsLive}

abbrev pub emission : RowId → RowId → BoardEvent → Emission
emission org project event = record { organization_id = org; project_id = project; event = event }

module _ {db : Prisma} (w : World db) (room_org k : RowId) where
  pub same-IsLive :
      (v : World db) → v.emitted ≡ w.emitted → v.issues ≡ w.issues → IsLive room_org k w v
  unfolding apply_all
  same-IsLive v emitted issues = (
    [],
    emitted ∙ sym (append-nil w.emitted),
    ap (λ t. map selected (select (λ (i : Issue). i.project_id == k) (db.rows t))) (sym issues),
  )

  pub one_event-IsLive :
      (v : World db) (e : Emission)
      → v.emitted ≡ w.emitted ++ e ∷ []
      → (in_room room_org k e ≡ true → apply_event e.event (cards_of k w) ≡ cards_of k v)
      → (in_room room_org k e ≡ false → rows_of k w ≡ rows_of k v)
      → IsLive room_org k w v
  unfolding apply_all
  one_event-IsLive v e emitted inside outside = (
    e ∷ [],
    emitted,
    elim (Bool-cases (in_room room_org k e)) [
      | inl hit ↦ rw hit (inside hit)
      | inr miss ↦ rw miss (ap (map selected) (outside miss))
    ],
  )

  module _ (h : BoardHealthy db w) (room : IsProject room_org k w) where
    -- An emission to the project's room under its id alone is one to the room.
    pub not_outside :
        (p : Project) (org : RowId) (event : BoardEvent)
        → In p (db.rows w.projects)
        → p.organization_id ≡ org
        → in_room room_org k (emission org p.id event) ≡ false
        → p.id ≡ k
        → ⊥
    not_outside p org event stored of outside at =
        let (q, in_q, is_q, of_q) = room in
        let same : p ≡ q = h.project_ids p q stored in_q (at ∙ sym is_q) in
        let orgs : org ≡ room_org = sym of ∙ ap (λ (p : Project). p.organization_id) same ∙ of_q in
        absurd (ground (arith, orgs, at, outside, ==_refl room_org, ==_refl k))

    module _ (i : Issue) (stored : In i (db.rows w.issues)) where
      pub issue_not_outside :
          (org : RowId) (event : BoardEvent)
          → i.organization_id ≡ org
          → in_room room_org k (emission org i.project_id event) ≡ false
          → i.project_id ≡ k
          → ⊥
      issue_not_outside org event of outside at =
          let (p, in_p, is_p, of_p) = h.owned i stored in
          not_outside p org event in_p (of_p ∙ of) (rw is_p outside) (is_p ∙ at)

      -- The rows of another project have other ids.
      pub other_ids :
          (i.project_id ≡ k → ⊥) → (r : Issue) → In r (rows_of k w) → (r.id == i.id) ≡ false
      other_ids other r m = elim (Bool-cases (r.id == i.id)) [
        | inr miss ↦ miss
        | inl hit ↦
            let (in_r, at) = In-select (λ (i : Issue). i.project_id == k) (db.rows w.issues) r m in
            let same : r ≡ i = h.issue_ids r i in_r stored ((==_iff _ _).0 hit) in
            absurd
              (other (sym (ap (λ (i : Issue). i.project_id) same) ∙ (==_iff r.project_id k).0 at))
      ]
