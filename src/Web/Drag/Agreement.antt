-- ===== src/Web/Drag/Agreement.antt =====
-- A drop on the board (apps/web/components/board.tsx, apps/web/lib/hooks.ts) beside the `move` of issues.service.ts that
-- it asks for.
use ai_saas_multi_tenant.Base.{
  not_both, ℕ, ◌≡◌, refl, sym, ap, ◌∙◌, inl, inr, Bool, true, ◌&&◌, Option, none, some, List, [],
  ◌∷◌, ◌++◌, arith, ◌==◌, Text, Bool-cases, Option-cases,
}
use ai_saas_multi_tenant.Prisma.{Prisma}
use ai_saas_multi_tenant.Prisma.Rows.{In, remove, remove-In, All_lookup}
use ai_saas_multi_tenant.Rank.{Ranked, rank_between}
use ai_saas_multi_tenant.Model.Data.{RowId, Issue, IssueRow, IssueStatus, BoardEvent, same_status}
use ai_saas_multi_tenant.Model.World.{World}
use ai_saas_multi_tenant.Model.Action.{Call, ok}
use ai_saas_multi_tenant.Services.Audit.{record_audit}
use ai_saas_multi_tenant.Services.Issues.{
  in_org, in_column, rank_of, selected, neighbour, set_place, place, move,
}
use ai_saas_multi_tenant.Services.Issues.Steps.{place-rank, move-found}
use ai_saas_multi_tenant.Services.Issues.Tenancy.{UniqueIssue}
use ai_saas_multi_tenant.Web.Cache.{apply_event, on_mutate_move}
use ai_saas_multi_tenant.Web.Drag
use ai_saas_multi_tenant.Web.Drag.{
  by_status, Over, target_status, get_elem?, before, same_rank, id_of, MoveVariables, variables,
  place_between, drop_in, on_drag_end,
}
use ai_saas_multi_tenant.Web.Drag.Cards.{by_status-In, get_elem?-In, before-In}

module _ {db : Prisma} (w : World db) (unique : UniqueIssue db w) where
  find_first_unique :
      (p : Issue → Bool) (j : Issue)
      → ((k : Issue) → p k ≡ true → k.id ≡ j.id)
      → In j (db.rows w.issues)
      → p j ≡ true
      → db.find_first p w.issues ≡ some j
  find_first_unique p j same m hit = elim (Option-cases (db.find_first p w.issues)) [
    | inl missing ↦
        let miss = All_lookup _ (db.rows w.issues) (db.find_first-none p w.issues missing) m in
        absurd (not_both hit miss)
    | inr (k, found) ↦
        let (n, hit_k) = db.find_first-some p w.issues found in
        found ∙ ap some (unique k j n m (same k hit_k))
  ]

-- The card of a stored issue, of the project and the tenant.
abbrev pub IsCard : {db : Prisma} → World db → RowId → RowId → IssueRow → Type 0
IsCard {db} w org project r =
    (j : Issue) × (In j (db.rows w.issues)
      × (selected j ≡ r)
      × (j.organization_id ≡ org)
      × (j.project_id ≡ project))

-- What a mutation of a drop says of the two neighbours.
abbrev IsPlaced : RowId → IssueStatus → Option IssueRow → Option IssueRow → MoveVariables → Type 0
IsPlaced active status above below v =
    (rank_between (Drag.rank_of above) (Drag.rank_of below) ≡ Ranked.rank v.optimistic_rank)
    × (v.id ≡ active)
    × (v.input.status ≡ status)
    × (v.input.above_id ≡ id_of above)
    × (v.input.below_id ≡ id_of below)

variables-IsPlaced :
    (active : RowId) (status : IssueStatus) (above below : Option IssueRow) (r : Ranked)
    (v : MoveVariables)
    → rank_between (Drag.rank_of above) (Drag.rank_of below) ≡ r
    → variables active status above below r ≡ some v
    → IsPlaced active status above below v
variables-IsPlaced active status above below (Ranked.rank t) v between e =
    let same = some_inj e in
    (
      between ∙ ap (λ (u : MoveVariables). Ranked.rank u.optimistic_rank) same,
      sym (ap (λ (u : MoveVariables). u.id) same),
      sym (ap (λ (u : MoveVariables). u.input.status) same),
      sym (ap (λ (u : MoveVariables). u.input.above_id) same),
      sym (ap (λ (u : MoveVariables). u.input.below_id) same),
    )
  where
    some_inj : {u u' : MoveVariables} → some u ≡ some u' → u ≡ u'
    some_inj h = cc
variables-IsPlaced active status above below Ranked.inverted v between e = cc
variables-IsPlaced active status above below Ranked.out_of_fuel v between e = cc

place_between-IsPlaced :
    (active : RowId) (status : IssueStatus) (above below : Option IssueRow) (v : MoveVariables)
    → place_between active status above below ≡ some v
    → IsPlaced active status above below v
place_between-IsPlaced active status above below v e =
    elim (Bool-cases (same_rank (Drag.rank_of above) (Drag.rank_of below))) [
      | inl same ↦ absurd (nothing (rw same at e))
      | inr apart ↦ variables-IsPlaced active status above below _ v refl (rw apart at e)
    ]
  where
    nothing : none ≡ some v → ⊥
    nothing h = cc

-- The cards of the column without the dragged one.
abbrev others : List IssueRow → RowId → IssueStatus → List IssueRow
others issues active status = remove (λ j. j.id == active) (by_status issues status)

drop_in-IsPlaced :
    (issues : List IssueRow) (active : RowId) (over : Over) (status : IssueStatus)
    (v : MoveVariables)
    → drop_in issues active over status ≡ some v
    → (n : ℕ) × IsPlaced active status
        (before n (others issues active status))
        (get_elem? n (others issues active status))
        v
unfolding drop_in
drop_in-IsPlaced issues active over status v e = (_, place_between-IsPlaced active status _ _ v e)

on_drag_end-IsPlaced :
    (issues : List IssueRow) (active : RowId) (over : Over) (v : MoveVariables)
    → on_drag_end issues active (some over) ≡ some v
    → (status : IssueStatus) × ((n : ℕ) × IsPlaced active status
          (before n (others issues active status))
          (get_elem? n (others issues active status))
          v)
unfolding on_drag_end
on_drag_end-IsPlaced issues active over v e = elim (Option-cases (target_status issues over)) [
  | inl nowhere ↦ absurd (nothing (rw (nowhere, on_drag_end) at e))
  | inr (status, there) ↦
      (status, drop_in-IsPlaced issues active over status v (rw (there, on_drag_end) at e))
]
  where
    nothing : none ≡ some v → ⊥
    nothing h = cc

others-In :
    (issues : List IssueRow) (active : RowId) (status : IssueStatus) (r : IssueRow)
    → In r (others issues active status)
    → In r issues × (same_status r.status status ≡ true)
others-In issues active status r m =
    by_status-In issues status r (remove-In (λ j. j.id == active) (by_status issues status) r m).0

module _ {db : Prisma} (c : Call) (org actor project : RowId) (w : World db)
    (unique : UniqueIssue db w) (cards : List IssueRow)
    (synced : (r : IssueRow) → In r cards → IsCard w org project r) (i : Issue)
    (stored_i : In i (db.rows w.issues)) (shown : In (selected i) cards) where
  card_of : i.project_id ≡ project
  card_of =
      let (j, (stored, same, _, here)) = synced (selected i) shown in
      ap (λ (r : IssueRow). r.project_id) (sym same) ∙ here

  tenant_of_card : i.organization_id ≡ org
  tenant_of_card =
      let (j, (stored, same, tenant, _)) = synced (selected i) shown in
      ap (λ (k : Issue). k.organization_id)
        (unique i j stored_i stored (ap (λ (r : IssueRow). r.id) (sym same)))
      ∙ tenant

  -- The server finds the neighbour that the board shows.
  neighbour-shown :
      (status : IssueStatus) (o : Option IssueRow)
      → ((r : IssueRow) → o ≡ some r → In r cards × (same_status r.status status ≡ true))
      → rank_of (neighbour c org actor i status (id_of o) w) ≡ Drag.rank_of o
  neighbour-shown status none known = refl
  neighbour-shown status (some r) known =
      let (m, in_status) = known r refl in
      let (j, (stored, same, _, here)) = synced r m in
      let mine = card_of in
      let is_id : j.id ≡ r.id = ap (λ (r : IssueRow). r.id) same in
      let is_status : j.status ≡ r.status = ap (λ (r : IssueRow). r.status) same in
      let seen : same_status j.status status ≡ true =
        ap (λ s. same_status s status) is_status ∙ in_status in
      ap rank_of (
        find_first_unique w unique (λ k. k.id == r.id && in_column i.project_id status k) j
          (λ k hit. ground (arith, hit, is_id)) stored (ground (arith, here, mine, seen, is_id)))
      ∙ ap (λ (r : IssueRow). some r.rank) same

  place-emitted :
      (status : IssueStatus) (t : Text)
      → (place c org actor i status (Ranked.rank t) w).1.emitted
        ≡ w.emitted
          ++ record {
            organization_id = org;
            project_id = i.project_id;
            event = BoardEvent.moved i.id status t;
          }
            ∷ []
  unfolding place record_audit
  place-emitted status t = ground arith

-- For a board whose cards are those of stored issues of one project of the tenant, where ids are unique: what a drop of
-- one of its cards asks the server for succeeds; the server gives the card the status and the rank that the board has given it already,
-- and the event that it sends out makes of the cache what the board has made of it at once.
pub drag-agrees :
    {db : Prisma} (c : Call) (org actor project : RowId) (w : World db) (cards : List IssueRow)
    (i : Issue) (over : Over) (v : MoveVariables)
    → UniqueIssue db w
    → ((r : IssueRow) → In r cards → IsCard w org project r)
    → In i (db.rows w.issues)
    → In (selected i) cards
    → on_drag_end cards i.id (some over) ≡ some v
    → let event = BoardEvent.moved v.id v.input.status v.optimistic_rank in
      ((move c org actor v.id v.input w).0 ≡ ok (set_place v.input.status v.optimistic_rank i))
      × ((move c org actor v.id v.input w).1.emitted
          ≡ w.emitted ++ record { organization_id = org; project_id = project; event = event } ∷ [])
      × ((on_mutate_move v.id v.input v.optimistic_rank (some cards)).cache
          ≡ some (apply_event event cards))
unfolding on_mutate_move apply_event
drag-agrees {db} c org actor project w cards i over v unique synced stored shown dropped =
    let (status, (n, (between, is_id, is_status, is_above, is_below))) =
      on_drag_end-IsPlaced cards i.id over v dropped in
    let tenant = tenant_of_card c org actor project w unique cards synced i stored shown in
    let here = card_of c org actor project w unique cards synced i stored shown in
    let found : db.find_first (in_org org v.id) w.issues ≡ some i =
      find_first_unique w unique (in_org org v.id) i (λ k hit. ground (arith, hit, is_id)) stored
        (ground (arith, is_id, tenant)) in
    let up =
      neighbour-shown c org actor project w unique cards synced i stored shown status
        (before n (others cards i.id status))
        (λ r e. others-In cards i.id status r (before-In n _ r e)) in
    let down =
      neighbour-shown c org actor project w unique cards synced i stored shown status
        (get_elem? n (others cards i.id status))
        (λ r e. others-In cards i.id status r (get_elem?-In n _ r e)) in
    let moved : move c org actor v.id v.input w
        ≡ place c org actor i v.input.status (Ranked.rank v.optimistic_rank) w =
      move-found c org actor v.id w i found v.input
      ∙ ap (λ r. place c org actor i v.input.status r w)
          (ap
              (λ a.
                rank_between a
                  (rank_of (neighbour c org actor i v.input.status v.input.below_id w)))
              (seen is_status is_above up)
            ∙ ap (λ b. rank_between (Drag.rank_of (before n (others cards i.id status))) b)
                (seen is_status is_below down)
            ∙ between) in
    (
      ap (λ o. o.0) moved ∙ (place-rank c org actor i v.input.status v.optimistic_rank w).0,
      ap (λ o. o.1.emitted) moved
          ∙ place-emitted c org actor project w unique cards synced i stored shown v.input.status
              v.optimistic_rank
          ∙ ap
              (λ p.
                w.emitted
                ++ record {
                  organization_id = org;
                  project_id = p;
                  event = BoardEvent.moved i.id v.input.status v.optimistic_rank;
                }
                  ∷ [])
              here
          ∙ ap
              (λ k.
                w.emitted
                ++ record {
                  organization_id = org;
                  project_id = project;
                  event = BoardEvent.moved k v.input.status v.optimistic_rank;
                }
                  ∷ [])
              (sym is_id),
      refl,
    )
  where
    -- The request asks for the column and the neighbour by their names on the board.
    seen :
        {s status : IssueStatus} {a a' : Option RowId} {rank : Option Text}
        → s ≡ status
        → a ≡ a'
        → rank_of (neighbour c org actor i status a' w) ≡ rank
        → rank_of (neighbour c org actor i s a w) ≡ rank
    seen {s} {status} {a} {a'} e f g =
        ap (λ t. rank_of (neighbour c org actor i t a w)) e
        ∙ ap (λ b. rank_of (neighbour c org actor i status b w)) f
        ∙ g
