-- ===== src/Schemas/Slugs.antt =====
-- The slugs of the organizations that the two routes make: `POST /orgs`, behind its schema, and
-- `POST /auth/register`.
use ai_saas_multi_tenant.Base.{
  ◌≡◌, sym, ◌⊎◌, inl, inr, true, Option, none, some, [], ◌∷◌, Text, text_eq, length, leb, arith,
  All, Bool-cases, Option-cases,
}
use mathlib.Core.Path.{subst}
use ai_saas_multi_tenant.Prisma.{Prisma}
use ai_saas_multi_tenant.Prisma.Rows.{All-append}
use ai_saas_multi_tenant.Model.Data.{RowId, DeviceInfo, Organization}
use ai_saas_multi_tenant.Model.World.{World}
use ai_saas_multi_tenant.Model.Platform.{External, Env}
use ai_saas_multi_tenant.Model.Action.{Call, Result}
use ai_saas_multi_tenant.Services.Audit.{record_audit}
use ai_saas_multi_tenant.Services.Orgs.{CreateOrgInput, new_org, create}
use ai_saas_multi_tenant.Auth.Accounts.{Session}
use ai_saas_multi_tenant.Auth.Slugs.Form.{IsSlugChar, IsSlug}
use ai_saas_multi_tenant.Auth.Registration.{RegisterInput, register}
use ai_saas_multi_tenant.Auth.Registration.Outcome.{OrgOutcome, register_cases}
use ai_saas_multi_tenant.Schemas.{validated}
use ai_saas_multi_tenant.Schemas.Inputs.{is_slug_text, is_create_org_input}

-- Not empty, and made of `[a-z0-9-]`.
abbrev pub IsPath : Text → Type 0
IsPath [] = ⊥
IsPath (c ∷ cs) = All IsSlugChar (c ∷ cs)

slug-IsPath : (t : Text) → IsSlug t → IsPath t
slug-IsPath [] h = h
slug-IsPath (c ∷ cs) h = (ground (arith, h.0), h.1)

is_slug_text-chars : (t : Text) → is_slug_text t ≡ true → All IsSlugChar t
is_slug_text-chars [] h = tt
is_slug_text-chars (c ∷ cs) h = (ground (arith, h), is_slug_text-chars cs (ground (arith, h)))

schema-IsPath : (input : CreateOrgInput) → is_create_org_input input ≡ true → IsPath input.slug
unfolding is_create_org_input
schema-IsPath input h = of_parts input.slug (ground (arith, h)) (ground (arith, h))
  where
    of_parts : (t : Text) → leb 2 (length t) ≡ true → is_slug_text t ≡ true → IsPath t
    of_parts [] low chars = ground (arith, low)
    of_parts (c ∷ cs) low chars = is_slug_text-chars (c ∷ cs) chars

abbrev pub SlugsFormed : (db : Prisma) → World db → Type 0
SlugsFormed db w = All (λ (o : Organization). IsPath o.slug) (db.rows w.organizations)

module _ {db : Prisma} (w : World db) (formed : SlugsFormed db w) where
  added-SlugsFormed :
      (v : World db) (o : Organization)
      → v.organizations ≡ db.create o w.organizations
      → IsPath o.slug
      → SlugsFormed db v
  added-SlugsFormed v o table path =
      rw (table, db.rows-create o w.organizations)
        (All-append (λ (o : Organization). IsPath o.slug) (db.rows w.organizations) formed path)

  module _ (c : Call) (user : RowId) (input : CreateOrgInput) where
    create-organizations :
        ((create c user input w).1.organizations ≡ w.organizations)
        ⊎ ((create c user input w).1.organizations
            ≡ db.create (new_org (c.ids 0) input) w.organizations)
    unfolding create record_audit
    create-organizations =
        elim (Option-cases
          (db.find_first (λ (o : Organization). text_eq o.slug input.slug) w.organizations)) [
            | inl free ↦ inr (ground (arith, free))
            | inr (o, taken) ↦ inl (ground (arith, taken))
          ]

    posted : SlugsFormed db (validated is_create_org_input input (create c user) w).1
    unfolding validated
    posted = elim (Bool-cases (is_create_org_input input)) [
      | inr refused ↦ rw refused formed
      | inl good ↦ rw good (elim create-organizations [
        | inl same ↦ rw same formed
        | inr added ↦
            added-SlugsFormed (create c user input w).1 (new_org (c.ids 0) input) added
              (schema-IsPath input good)
      ])
    ]

  module _ (x : External) (env : Env) (c : Call) (input : RegisterInput) (device : DeviceInfo) where
    outcome-SlugsFormed :
        (o : Option Text)
        → OrgOutcome x env c input device w o
        → SlugsFormed db (register x env c input device w).1
    outcome-SlugsFormed none same = rw same formed
    outcome-SlugsFormed (some []) same = rw same formed
    outcome-SlugsFormed (some (d ∷ ds)) (slug, _, form, added, _) =
        added-SlugsFormed (register x env c input device w).1 _ added (slug-IsPath slug form)

    registered : SlugsFormed db (register x env c input device w).1
    registered = elim (register_cases x env c input device w) [
      | inl (_, refused) ↦
          subst (λ (o : Result Session × World db). SlugsFormed db o.1) (sym refused) formed
      | inr (_, _, org) ↦ outcome-SlugsFormed input.org_name org
    ]

  -- Both routes that make organizations keep that the slug of every organization is not empty and made
  -- of `[a-z0-9-]`, whatever the body of the request: `createOrgSchema` refuses other slugs, and
  -- `register` makes none.
  pub routes-SlugsFormed :
      (x : External) (env : Env) (c : Call) (user : RowId) (body : CreateOrgInput)
      (input : RegisterInput) (device : DeviceInfo)
      → SlugsFormed db (validated is_create_org_input body (create c user) w).1
        × SlugsFormed db (register x env c input device w).1
  routes-SlugsFormed x env c user body input device =
      (posted c user body, registered x env c input device)
