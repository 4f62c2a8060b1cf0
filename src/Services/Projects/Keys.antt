-- ===== src/Services/Projects/Keys.antt =====
-- The keys and the teams of projects under `create` of projects/projects.service.ts.
use ai_saas_multi_tenant.Base.{
  ◌≡◌, sym, ap, ◌∙◌, ◌⊎◌, inl, inr, true, false, Option, none, some, arith, Option-cases,
  Bool-cases,
}
use mathlib.Core.Path.{subst}
use ai_saas_multi_tenant.Prisma.{Prisma}
use ai_saas_multi_tenant.Prisma.Rows.{In, append-In, All_lookup}
use ai_saas_multi_tenant.Model.Data.{RowId, Team, Project}
use ai_saas_multi_tenant.Model.World.{World}
use ai_saas_multi_tenant.Model.Action.{Call, Result, throw, bad_request}
use ai_saas_multi_tenant.Services.Audit.{record_audit}
use ai_saas_multi_tenant.Services.Issues.{is_project}
use ai_saas_multi_tenant.Services.Projects.{
  CreateProjectInput, new_project, is_team, is_foreign_team, create,
}

module _ (db : Prisma) where
  -- A key is used once in an organization.
  abbrev pub KeysUnique : World db → Type 0
  KeysUnique w =
      (p q : Project)
      → In p (db.rows w.projects)
      → In q (db.rows w.projects)
      → p.organization_id ≡ q.organization_id
      → p.key ≡ q.key
      → p ≡ q

  -- The team of a project is stored, and of the project's organization.
  abbrev pub TeamsOwned : World db → Type 0
  TeamsOwned w =
      (p : Project) (id : RowId)
      → In p (db.rows w.projects)
      → p.team_id ≡ some id
      → (t : Team) × In t (db.rows w.teams) × (t.id ≡ id) × (t.organization_id ≡ p.organization_id)

module _ {db : Prisma} (c : Call) (org actor : RowId) (input : CreateProjectInput)
    (w : World db) where
  abbrev stored_project : Project
  stored_project = new_project (c.ids 0) org input

  create-clash :
      (p : Project)
      → db.find_first (is_project org input.key) w.projects ≡ some p
      → create c org actor input w ≡ (throw bad_request, w)
  unfolding create
  create-clash p found = rw found

  module _ (fresh : db.find_first (is_project org input.key) w.projects ≡ none) where
    create-foreign :
        is_foreign_team org input.team_id w ≡ true
        → create c org actor input w ≡ (throw bad_request, w)
    unfolding create
    create-foreign foreign = rw (fresh, foreign)

    create-stored :
        is_foreign_team org input.team_id w ≡ false
        → ((create c org actor input w).1.projects ≡ db.create stored_project w.projects)
          × ((create c org actor input w).1.teams ≡ w.teams)
    unfolding create record_audit
    create-stored own = (ground (arith, fresh, own), ground (arith, fresh, own))

    key_free :
        (p : Project) → In p (db.rows w.projects) → p.organization_id ≡ org → p.key ≡ input.key → ⊥
    key_free p m o k =
        let miss = All_lookup _ (db.rows w.projects) (db.find_first-none _ w.projects fresh) m in
        ground (arith, miss, o, k)

  own_team :
      (id : RowId) (o : Option RowId)
      → is_foreign_team org o w ≡ false
      → o ≡ some id
      → (t : Team) × In t (db.rows w.teams) × (t.id ≡ id) × (t.organization_id ≡ org)
  unfolding is_foreign_team
  own_team id none own e = cc
  own_team id (some i) own e = elim (Option-cases (db.find_first (is_team org i) w.teams)) [
    | inl missing ↦ absurd (ground (arith, missing, own))
    | inr (t, found) ↦
        let (stored, holds) = db.find_first-some _ w.teams found in
        (t, stored, ground (arith, holds, e), ground (arith, holds))
  ]

  abbrev Kept : Result Project × World db → Type 0
  Kept o = KeysUnique db o.1 × TeamsOwned db o.1

  module _ (fresh : db.find_first (is_project org input.key) w.projects ≡ none)
      (own : is_foreign_team org input.team_id w ≡ false) where
    project_after :
        (p : Project)
        → In p (db.rows (create c org actor input w).1.projects)
        → In p (db.rows w.projects) ⊎ (p ≡ stored_project)
    project_after p m = append-In (db.rows w.projects) (
        subst (λ ps. In p ps) (db.rows-create stored_project w.projects)
          (subst (λ t. In p (db.rows t)) (create-stored fresh own).0 m))

    after-KeysUnique : KeysUnique db w → KeysUnique db (create c org actor input w).1
    after-KeysUnique unique p q m n o k = elim (project_after p m) [
      | inl old_p ↦ elim (project_after q n) [
        | inl old_q ↦ unique p q old_p old_q o k
        | inr new_q ↦ absurd (
            key_free fresh p old_p (o ∙ ap (λ (p : Project). p.organization_id) new_q)
              (k ∙ ap (λ (p : Project). p.key) new_q))
      ]
      | inr new_p ↦ elim (project_after q n) [
        | inl old_q ↦ absurd (
            key_free fresh q old_q (sym o ∙ ap (λ (p : Project). p.organization_id) new_p)
              (sym k ∙ ap (λ (p : Project). p.key) new_p))
        | inr new_q ↦ new_p ∙ sym new_q
      ]
    ]

    after-TeamsOwned : TeamsOwned db w → TeamsOwned db (create c org actor input w).1
    after-TeamsOwned owned p id m has = elim (project_after p m) [
      | inl old ↦
          let (t, stored, i, o) = owned p id old has in
          (t, subst (λ ts. In t (db.rows ts)) (sym (create-stored fresh own).1) stored, i, o)
      | inr new ↦
          let (t, stored, i, o) =
            own_team id input.team_id own (sym (ap (λ (p : Project). p.team_id) new) ∙ has) in
          (
            t,
            subst (λ ts. In t (db.rows ts)) (sym (create-stored fresh own).1) stored,
            i,
            o ∙ sym (ap (λ (p : Project). p.organization_id) new),
          )
    ]

  -- `create` keeps, on every branch, that a key is used once in an organization, and that the team of
  -- a project is a stored team of the same organization.
  pub create-keys :
      KeysUnique db w
      → TeamsOwned db w
      → KeysUnique db (create c org actor input w).1 × TeamsOwned db (create c org actor input w).1
  create-keys unique owned =
      elim (Option-cases (db.find_first (is_project org input.key) w.projects)) [
        | inr (p, found) ↦ subst Kept (sym (create-clash p found)) (unique, owned)
        | inl fresh ↦ elim (Bool-cases (is_foreign_team org input.team_id w)) [
          | inl foreign ↦ subst Kept (sym (create-foreign fresh foreign)) (unique, owned)
          | inr own ↦ (after-KeysUnique fresh own unique, after-TeamsOwned fresh own owned)
        ]
      ]
