-- ===== src/Services/Issues/Numbers.antt =====
-- The numbers of the issues of a project under `create` of issues/issues.service.ts.
use ai_saas_multi_tenant.Base.{
  ℕ, ◌+◌, ◌≤◌, ◌<◌, ◌≡◌, sym, ap, ◌∙◌, ◌⊎◌, inl, inr, some, arith, ◌==◌, Text, ==_iff,
}
use mathlib.Core.Path.{subst}
use ai_saas_multi_tenant.Prisma.{Prisma}
use ai_saas_multi_tenant.Prisma.Rows.{In, update_row, map-In, append-In}
use ai_saas_multi_tenant.Model.Data.{RowId, Project, Issue}
use ai_saas_multi_tenant.Model.World.{World}
use ai_saas_multi_tenant.Model.Action.{Call, Result}
use ai_saas_multi_tenant.Services.Issues.{CreateIssueInput, bump, create}
use ai_saas_multi_tenant.Services.Issues.Creation.{create_cases, counted, stored_issue, Stored}

module _ (db : Prisma) where
  -- No issue has a number above the counter of its project.
  abbrev pub Counted : World db → Type 0
  Counted w =
      (i : Issue) (p : Project)
      → In i (db.rows w.issues)
      → In p (db.rows w.projects)
      → i.project_id ≡ p.id
      → i.number ≤ p.issue_counter

  -- A number is used once in a project.
  abbrev pub NumberedOnce : World db → Type 0
  NumberedOnce w =
      (i j : Issue)
      → In i (db.rows w.issues)
      → In j (db.rows w.issues)
      → i.project_id ≡ j.project_id
      → i.number ≡ j.number
      → i ≡ j

  abbrev pub UniqueProject : World db → Type 0
  UniqueProject w =
      (p q : Project) → In p (db.rows w.projects) → In q (db.rows w.projects) → p.id ≡ q.id → p ≡ q

bumped :
    (id : RowId) (r q : Project)
    → q ≡ update_row (λ s. s.id == id) bump r
    → q.id ≡ id
    → (r.id ≡ id) × (q.issue_counter ≡ r.issue_counter + 1)
bumped id r q e same = ground arith

bumped_ge :
    (id : RowId) (r q : Project)
    → q ≡ update_row (λ s. s.id == id) bump r
    → (r.id ≡ q.id) × (r.issue_counter ≤ q.issue_counter)
bumped_ge id r q e = ground arith

module _ (c : Call) (org actor : RowId) (key : ℕ) (input : CreateIssueInput) {db : Prisma}
    (w : World db) (below : Counted db w) (once : NumberedOnce db w)
    (unique : UniqueProject db w) where
  abbrev after : World db
  after = (create c org actor key input w).1

  -- The project row before the increment that gave the new number.
  origin :
      (p q : Project)
      → counted c org actor key input w p ≡ some q
      → (r : Project) × In r (db.rows w.projects)
        × (r.id ≡ p.id)
        × (q.issue_counter ≡ r.issue_counter + 1)
  origin p q has =
      let (m, same) = db.find_first-some (λ (q : Project). q.id == p.id) _ has in
      let (r, n, e) =
        map-In _ (db.rows w.projects) (rw (db.rows-update_many _ _ w.projects) at m) in
      let (at_p, count) = bumped p.id r q e ((==_iff _ _).0 same) in (r, n, at_p, count)

  module _ (p q : Project) (r : Text) (has : counted c org actor key input w p ≡ some q)
      (stored : Stored c org actor key input w p q r) where
    new_number :
        (i : Issue) → In i (db.rows w.issues) → i.project_id ≡ p.id → i.number < q.issue_counter
    new_number i m at_p =
        let (o, in_o, o_id, count) = origin p q has in
        omega (arith, below i o m in_o (at_p ∙ sym o_id), count)

    issue_after :
        (i : Issue)
        → In i (db.rows after.issues)
        → In i (db.rows w.issues) ⊎ (i ≡ stored_issue c org actor key input w p q r)
    issue_after i m =
        append-In (db.rows w.issues)
          (rw (db.rows-create _ w.issues) at (subst (λ t. In i (db.rows t)) stored.1 m))

    project_after :
        (s : Project)
        → In s (db.rows after.projects)
        → (t : Project) × In t (db.rows w.projects) × (s ≡ update_row (λ s. s.id == p.id) bump t)
    project_after s m =
        map-In _ (db.rows w.projects)
          (rw (db.rows-update_many _ _ w.projects) at (subst (λ t. In s (db.rows t)) stored.2 m))

    after-Counted : Counted db after
    after-Counted i s in_i in_s same =
        let (t, in_t, e) = project_after s in_s in
        let (t_id, grown) = bumped_ge p.id t s e in
        elim (issue_after i in_i) [
          | inl old ↦ omega (arith, below i t old in_t (same ∙ sym t_id), grown)
          | inr new ↦
              let (o, in_o, o_id, count) = origin p q has in
              let at_p : s.id ≡ p.id = sym same ∙ ap (λ (i : Issue). i.project_id) new in
              let same_row : t ≡ o = unique t o in_t in_o (t_id ∙ at_p ∙ sym o_id) in
              let (_, count_s) = bumped p.id t s e at_p in
              omega (
                arith,
                ap (λ (i : Issue). i.number) new,
                count,
                count_s,
                ap (λ (p : Project). p.issue_counter) same_row,
              )
        ]

    after-NumberedOnce : NumberedOnce db after
    after-NumberedOnce i j in_i in_j same equal = elim (issue_after i in_i) [
      | inl old_i ↦ elim (issue_after j in_j) [
        | inl old_j ↦ once i j old_i old_j same equal
        | inr new_j ↦ absurd (
            omega (
              arith,
              new_number i old_i (same ∙ ap (λ (i : Issue). i.project_id) new_j),
              equal,
              ap (λ (i : Issue). i.number) new_j,
            ))
      ]
      | inr new_i ↦ elim (issue_after j in_j) [
        | inl old_j ↦ absurd (
            omega (
              arith,
              new_number j old_j (sym same ∙ ap (λ (i : Issue). i.project_id) new_i),
              equal,
              ap (λ (i : Issue). i.number) new_i,
            ))
        | inr new_j ↦ new_i ∙ sym new_j
      ]
    ]

  -- Where project ids are unique, `create` keeps, on every branch, that no issue of a project has a
  -- number above the project's counter, and that a number stands for one issue of the project.
  pub create-numbers : Counted db after × NumberedOnce db after
  create-numbers = elim (create_cases c org actor key input w) [
    | inl (e, unchanged) ↦
        subst (λ (o : Result Issue × World db). Counted db o.1 × NumberedOnce db o.1)
          (sym unchanged) (below, once)
    | inr (p, found, (q, has, linked, (r, bottom, stored))) ↦
        (after-Counted p q r has stored, after-NumberedOnce p q r has stored)
  ]
