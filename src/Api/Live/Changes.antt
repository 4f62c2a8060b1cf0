-- ===== src/Api/Live/Changes.antt =====
-- An open board under the operations of issues/issues.service.ts.
use ai_saas_multi_tenant.Base.{
  ℕ, ◌≡◌, refl, sym, ap, ◌∙◌, ◌⊎◌, inl, inr, true, false, some, [], ◌∷◌, ◌++◌, map, map-append,
  arith, Text, if◌then◌else◌, ◌==◌, ==_iff, Option-cases, Bool-cases,
}
use mathlib.Core.Path.{subst}
use ai_saas_multi_tenant.Prisma.{Prisma}
use ai_saas_multi_tenant.Prisma.Rows.{In, update_row, select, In-select}
use ai_saas_multi_tenant.Rank.{Ranked, rank_between}
use ai_saas_multi_tenant.Model.Data.{RowId, Issue, IssueStatus, BoardEvent}
use ai_saas_multi_tenant.Model.World.{World}
use ai_saas_multi_tenant.Model.Action.{Call, Result}
use ai_saas_multi_tenant.Services.Audit.{record_audit}
use ai_saas_multi_tenant.Services.Notifications.{enqueue}
use ai_saas_multi_tenant.Services.Issues.{
  CreateIssueInput, UpdateIssueInput, MoveIssueInput, is_project, in_org, rank_of, neighbour,
  selected, is_dangling, connected, set_fields, set_place, notify_change, place, create, update,
  move, delete_issue,
}
use ai_saas_multi_tenant.Services.Issues.Steps.{
  place-rank, place-inverted, update_cases, update-found, move-missing, move-found,
  delete_issue-missing, delete_issue-found,
}
use ai_saas_multi_tenant.Services.Issues.Creation.{create_cases, create-emitted, stored_issue}
use ai_saas_multi_tenant.Rank.Between.{rank_between_total}
use ai_saas_multi_tenant.Web.Cache.{has_id, place_row, apply_event}
use ai_saas_multi_tenant.Web.Sync.{
  rows_of, select-map, map_selected, remove_selected, deleted-rows, moved-rows, place-emitted,
  delete_issue-emitted,
}
use ai_saas_multi_tenant.Api.Facets.{BoardHealthy, IsFresh}
use ai_saas_multi_tenant.Api.Live.{cards_of, IsProject, IsLive}
use ai_saas_multi_tenant.Api.Live.Lists.{
  map_untouched, remove_untouched, map_alike, select-append, has_id-false,
}
use ai_saas_multi_tenant.Api.Live.Rooms.{
  emission, same-IsLive, one_event-IsLive, not_outside, issue_not_outside, other_ids,
}

module _ {db : Prisma} (w : World db) (room_org k : RowId) (h : BoardHealthy db w)
    (room : IsProject room_org k w) where
  module _ (c : Call) (org actor id : RowId) where
    pub delete_issue-IsLive : IsLive room_org k w (delete_issue c org actor id w).1
    unfolding apply_event
    delete_issue-IsLive = elim (Option-cases (db.find_first (in_org org id) w.issues)) [
      | inl missing ↦
          rw (delete_issue-missing c org actor id w missing) (same-IsLive w room_org k w refl refl)
      | inr (i, found) ↦
          let v = (delete_issue c org actor id w).1 in
          let (stored, hit) = db.find_first-some (in_org org id) w.issues found in
          let event = BoardEvent.deleted i.id in
          let patched = deleted-rows i.id k w v (delete_issue-found c org actor id w i found).1 in
          one_event-IsLive w room_org k v (emission org i.project_id event)
            (delete_issue-emitted c org actor id w i found)
            (λ inside.
              remove_selected selected (λ j. j.id == i.id) (λ r. r.id == i.id) (λ j. refl)
                (rows_of k w)
              ∙ ap (map selected) patched)
            (λ outside.
              let other = other_ids w room_org k h room i stored (
                issue_not_outside w room_org k h room i stored org event (ground (arith, hit))
                  outside) in
              sym (remove_untouched (λ j. j.id == i.id) (rows_of k w) other) ∙ patched)
    ]

    placed-IsLive :
        (i : Issue) (status : IssueStatus) (ranked : Ranked)
        → In i (db.rows w.issues)
        → i.organization_id ≡ org
        → (ranked ≡ Ranked.inverted) ⊎ ((t : Text) × (ranked ≡ Ranked.rank t))
        → IsLive room_org k w (place c org actor i status ranked w).1
    unfolding apply_event
    placed-IsLive i status ranked stored of (inl inverted) =
        rw (inverted, place-inverted c org actor i status w) (same-IsLive w room_org k w refl refl)
    placed-IsLive i status ranked stored of (inr (t, e)) =
        let v = (place c org actor i status (Ranked.rank t) w).1 in
        let event = BoardEvent.moved i.id status t in
        let patched = moved-rows i.id k status t w v (place-rank c org actor i status t w).1 in
        rw e (
          one_event-IsLive w room_org k v (emission org i.project_id event)
            (place-emitted c org actor id w i status t)
            (λ inside.
              map_selected selected (λ j. j.id == i.id) (λ r. r.id == i.id) (λ j. refl)
                (set_place status t) (place_row status t) (λ j hit. refl) (rows_of k w)
              ∙ ap (map selected) patched)
            (λ outside.
              let other =
                other_ids w room_org k h room i stored
                  (issue_not_outside w room_org k h room i stored org event of outside) in
              sym (map_untouched (λ j. j.id == i.id) (set_place status t) (rows_of k w) other)
              ∙ patched))

    pub move-IsLive : (input : MoveIssueInput) → IsLive room_org k w (move c org actor id input w).1
    move-IsLive input = elim (Option-cases (db.find_first (in_org org id) w.issues)) [
      | inl missing ↦
          rw (move-missing c org actor id w missing input) (same-IsLive w room_org k w refl refl)
      | inr (i, found) ↦
          let (stored, hit) = db.find_first-some (in_org org id) w.issues found in
          let above = rank_of (neighbour c org actor i input.status input.above_id w) in
          let below = rank_of (neighbour c org actor i input.status input.below_id w) in
          rw (move-found c org actor id w i found input) (
            placed-IsLive i input.status (rank_between above below) stored (ground (arith, hit))
              (elim (rank_between_total above below) [
                | inl (_, e) ↦ inl e
                | inr (_, (t, e, _)) ↦ inr (t, e)
              ]))
    ]

    update-emitted :
        (i : Issue) (input : UpdateIssueInput)
        → db.find_first (in_org org id) w.issues ≡ some i
        → is_dangling (connected input) w ≡ false
        → (update c org actor id input w).1.emitted
          ≡ w.emitted
            ++ emission org i.project_id (BoardEvent.updated (selected (set_fields input i))) ∷ []
    unfolding update record_audit notify_change enqueue
    update-emitted i input found linked = ground (arith, found, linked)

    -- The update of the table, on the rows of the board.
    updated-rows :
        (i : Issue) (input : UpdateIssueInput)
        → db.find_first (in_org org id) w.issues ≡ some i
        → is_dangling (connected input) w ≡ false
        → map (update_row (λ j. j.id == id) (set_fields input)) (rows_of k w)
          ≡ rows_of k (update c org actor id input w).1
    updated-rows i input found linked =
        let at = λ (j : Issue). j.project_id == k in
        sym (
          ap (λ t. select at (db.rows t)) (update-found c org actor id w i found input linked).1
          ∙ ap (select at) (db.rows-update_many _ _ w.issues)
          ∙ select-map at (λ j. j.id == id) (set_fields input) (λ j. refl) (db.rows w.issues))

    pub update-IsLive :
        (input : UpdateIssueInput) → IsLive room_org k w (update c org actor id input w).1
    unfolding apply_event
    update-IsLive input = elim (update_cases c org actor id w input) [
      | inl (_, unchanged) ↦ rw unchanged (same-IsLive w room_org k w refl refl)
      | inr (i, found, linked) ↦
          let v = (update c org actor id input w).1 in
          let (stored, hit) = db.find_first-some (in_org org id) w.issues found in
          let event = BoardEvent.updated (selected (set_fields input i)) in
          let at_id : i.id ≡ id = ground (arith, hit) in
          let patched = updated-rows i input found linked in
          one_event-IsLive w room_org k v (emission org i.project_id event)
            (update-emitted i input found linked)
            (λ inside.
              subst
                (λ (n : RowId).
                  map (update_row (λ r. r.id == n) (λ _. selected (set_fields input i)))
                    (cards_of k w)
                  ≡ cards_of k v)
                (sym at_id)
                (map_selected selected (λ j. j.id == id) (λ r. r.id == id) (λ j. refl)
                    (λ _. set_fields input i) (λ _. selected (set_fields input i)) (λ j hit. refl)
                    (rows_of k w)
                  ∙ ap (map selected) (
                      map_alike (λ j. j.id == id) (λ _. set_fields input i) (set_fields input)
                        (rows_of k w)
                        (λ r m same. ap (set_fields input) (
                          h.issue_ids i r stored
                            (In-select (λ (i : Issue). i.project_id == k) (db.rows w.issues) r m).0
                            (at_id ∙ sym ((==_iff r.id id).0 same))))
                      ∙ patched)))
            (λ outside.
              let other = other_ids w room_org k h room i stored (
                issue_not_outside w room_org k h room i stored org event (ground (arith, hit))
                  outside) in
              sym (
                map_untouched (λ j. j.id == id) (set_fields input) (rows_of k w)
                  (λ r m. rw (sym at_id) (other r m)))
              ∙ patched)
    ]

  module _ (c : Call) (fresh : IsFresh db c w) (org actor : RowId) (key : ℕ)
      (input : CreateIssueInput) where
    -- The rows of a board, with one more in the table.
    created-rows :
        (new : Issue) (v : World db)
        → v.issues ≡ db.create new w.issues
        → rows_of k v ≡ (if new.project_id == k then rows_of k w ++ new ∷ [] else rows_of k w)
    created-rows new v table =
        let at = λ (j : Issue). j.project_id == k in
        ap (λ t. select at (db.rows t)) table
        ∙ ap (select at) (db.rows-create new w.issues)
        ∙ select-append at (db.rows w.issues) new

    new_id : (new : Issue) → new.id ≡ c.ids 0 → has_id new.id (cards_of k w) ≡ false
    new_id new e = has_id-false new.id (rows_of k w) (λ r m. elim (Bool-cases (r.id == new.id)) [
      | inr miss ↦ miss
      | inl hit ↦ absurd (
          fresh.issues 0 r (In-select (λ (i : Issue). i.project_id == k) (db.rows w.issues) r m).0
            ((==_iff r.id new.id).0 hit ∙ e))
    ])

    pub create-IsLive : IsLive room_org k w (create c org actor key input w).1
    unfolding apply_event
    create-IsLive = elim (create_cases c org actor key input w) [
      | inl (e, unchanged) ↦
          subst (λ (o : Result Issue × World db). IsLive room_org k w o.1) (sym unchanged)
            (same-IsLive w room_org k w refl refl)
      | inr (p, found, (q, has, linked, (r, bottom, (_, issues, _)))) ↦
          let v = (create c org actor key input w).1 in
          let new = stored_issue c org actor key input w p q r in
          let (stored, hit) = db.find_first-some (is_project org key) w.projects found in
          let event = BoardEvent.created (selected new) in
          let rows = created-rows new v issues in
          one_event-IsLive w room_org k v (emission org p.id event)
            (create-emitted c org actor key input w p found q has r bottom linked)
            (λ inside.
              let here : (p.id == k) ≡ true = ground (arith, inside) in
              rw (new_id new refl) (
                sym (map-append selected (rows_of k w) (new ∷ []))
                ∙ ap (map selected) (sym (rw here at rows))))
            (λ outside. elim (Bool-cases (p.id == k)) [
              | inl here ↦ absurd (
                  not_outside w room_org k h room p org event stored (ground (arith, hit)) outside
                    ((==_iff p.id k).0 here))
              | inr away ↦ sym (rw away at rows)
            ])
    ]
