-- ===== src/Api/Founding.antt =====
-- New organizations: `create` of orgs/orgs.service.ts and `register` of auth/auth.service.ts.
use ai_saas_multi_tenant.Base.{
  ◌≡◌, refl, sym, ap, ◌∙◌, ◌⊎◌, inl, inr, Option, none, some, [], ◌∷◌, Text, text_eq, arith, ◌==◌,
  Option-cases, ==_refl, text_eq_refl,
}
use mathlib.Core.Path.{subst}
use ai_saas_multi_tenant.Prisma.{Prisma}
use ai_saas_multi_tenant.Prisma.Unique.{create-Once, not_found-excludes}
use ai_saas_multi_tenant.Rbac.{owner}
use ai_saas_multi_tenant.Model.Data.{RowId, User, DeviceInfo, Organization, Subscription}
use ai_saas_multi_tenant.Model.World.{World}
use ai_saas_multi_tenant.Model.Platform.{External, Env}
use ai_saas_multi_tenant.Model.Action.{Call, Result}
use ai_saas_multi_tenant.Services.Audit.{record_audit}
use ai_saas_multi_tenant.Services.Orgs.{
  CreateOrgInput, new_membership, new_subscription, new_org, insert_org, create,
}
use ai_saas_multi_tenant.Auth.Tokens.{new_token, issue_for_user, create_refresh}
use ai_saas_multi_tenant.Auth.Accounts.{Session, find_user}
use ai_saas_multi_tenant.Auth.Registration.{
  RegisterInput, new_user, named_org, create_org_for_user, bootstrap, register,
}
use ai_saas_multi_tenant.Auth.Registration.Outcome.{IsFree, pick_slug_total, register-known}
use ai_saas_multi_tenant.Api.Accounts.{new_family-OneActive}
use ai_saas_multi_tenant.Api.Facets.{
  member_key, OrgsHealthy, OrgsHealthy-same, AccountsHealthy, IsFresh,
}

-- The tables of a new organization are written by `insert_org`, and nothing else of them.
abbrev Founded : (db : Prisma) → Call → World db → World db → Type 0
Founded db c w v =
    (user : RowId) × (org : Organization) × IsFree w org.slug
    × (org.id ≡ c.ids 0)
    × (v.organizations ≡ (insert_org c user org w).organizations)
    × (v.memberships ≡ (insert_org c user org w).memberships)
    × (v.subscriptions ≡ (insert_org c user org w).subscriptions)
    × (v.invites ≡ w.invites)

abbrev OrgsSame : (db : Prisma) → World db → World db → Type 0
OrgsSame db w v =
    (v.organizations ≡ w.organizations)
    × (v.memberships ≡ w.memberships)
    × (v.subscriptions ≡ w.subscriptions)
    × (v.invites ≡ w.invites)

module _ {db : Prisma} (w : World db) (h : OrgsHealthy db w) (c : Call)
    (fresh : IsFresh db c w) where
  insert_org-OrgsHealthy : (v : World db) → OrgsSame db w v ⊎ Founded db c w v → OrgsHealthy db v
  insert_org-OrgsHealthy v (inl (organizations, memberships, subscriptions, invites)) =
      OrgsHealthy-same w v organizations memberships invites subscriptions h
  insert_org-OrgsHealthy v
        (inr (user, org, free, id, organizations, memberships, subscriptions, invites)) =
      record {
        slugs =
            rw organizations
              (create-Once (λ (o : Organization). o.slug) db w.organizations h.slugs org free);
        members = rw memberships (
            create-Once member_key db w.memberships h.members
              (new_membership (c.ids 1) user org.id owner)
              (λ m stored same. fresh.memberships 0 m stored (ap (λ k. k.1) same ∙ id)));
        invites = rw invites h.invites;
        subscriptions = rw subscriptions (
            create-Once (λ (s : Subscription). s.organization_id) db w.subscriptions h.subscriptions
              (new_subscription (c.ids 2) org.id)
              (λ s stored same. fresh.subscriptions 0 s stored (same ∙ id)));
      }

  free_slug :
      (slug : Text)
      → db.find_first (λ (o : Organization). text_eq o.slug slug) w.organizations ≡ none
      → IsFree w slug
  free_slug slug missing o stored same =
      not_found-excludes db (λ (o : Organization). text_eq o.slug slug) w.organizations o missing
        stored (rw same (text_eq_refl slug))

  pub create-OrgsHealthy :
      (user : RowId) (input : CreateOrgInput) → OrgsHealthy db (create c user input w).1
  unfolding create record_audit
  create-OrgsHealthy user input = insert_org-OrgsHealthy _ outcome
    where
      outcome : OrgsSame db w (create c user input w).1 ⊎ Founded db c w (create c user input w).1
      outcome =
          elim (Option-cases
            (db.find_first (λ (o : Organization). text_eq o.slug input.slug) w.organizations)) [
              | inr (o, taken) ↦ inl (
                ground (arith, taken),
                ground (arith, taken),
                ground (arith, taken),
                ground (arith, taken),
              )
              | inl free ↦ inr (
                user,
                new_org (c.ids 0) input,
                free_slug input.slug free,
                refl,
                ground (arith, free),
                ground (arith, free),
                ground (arith, free),
                ground (arith, free),
              )
            ]

  module _ (x : External) (env : Env) (input : RegisterInput) (device : DeviceInfo) where
    abbrev after : World db
    after = (register x env c input device w).1

    -- A user is added, under an address that no user had, with one token, in a fresh family.
    abbrev Registered : Type 0
    Registered =
        (find_user x env c input.email w ≡ none)
        × (after.users ≡ db.create (new_user x (c.ids 3) input) w.users)
        × (after.refresh_tokens
            ≡ db.create
                (new_token x env c (record { sub = c.ids 3; email = input.email }) (c.ids 1) device)
                w.refresh_tokens)

    abbrev with_user : World db
    with_user = record w { users = db.create (new_user x (c.ids 3) input) w.users }

    register-Registered :
        (o : Option Text)
        → input.org_name ≡ o
        → find_user x env c input.email w ≡ none
        → Registered × (OrgsSame db w after ⊎ Founded db c w after)
    unfolding register bootstrap create_org_for_user issue_for_user create_refresh record_audit
    register-Registered none e new = (
      (new, ground (arith, e, new), ground (arith, e, new)),
      inl (
        ground (arith, e, new),
        ground (arith, e, new),
        ground (arith, e, new),
        ground (arith, e, new),
      ),
    )
    register-Registered (some []) e new = (
      (new, ground (arith, e, new), ground (arith, e, new)),
      inl (
        ground (arith, e, new),
        ground (arith, e, new),
        ground (arith, e, new),
        ground (arith, e, new),
      ),
    )
    register-Registered (some (d ∷ ds)) e new =
        let (slug, picked, free, _) = pick_slug_total with_user x (d ∷ ds) in
        (
          (new, ground (arith, e, new, picked), ground (arith, e, new, picked)),
          inr (
            c.ids 3,
            named_org (c.ids 0) slug (d ∷ ds),
            free,
            refl,
            ground (arith, e, new, picked),
            ground (arith, e, new, picked),
            ground (arith, e, new, picked),
            ground (arith, e, new, picked),
          ),
        )

    pub register-OrgsHealthy : OrgsHealthy db after
    register-OrgsHealthy = elim (Option-cases (find_user x env c input.email w)) [
      | inl new ↦ insert_org-OrgsHealthy after (register-Registered input.org_name refl new).1
      | inr (u, known) ↦
          subst (λ (o : Result Session × World db). OrgsHealthy db o.1)
            (sym (register-known x env c input device w u known)) h
    ]

    pub register-AccountsHealthy : AccountsHealthy db w → AccountsHealthy db after
    register-AccountsHealthy a = elim (Option-cases (find_user x env c input.email w)) [
      | inr (u, known) ↦
          subst (λ (o : Result Session × World db). AccountsHealthy db o.1)
            (sym (register-known x env c input device w u known)) a
      | inl new ↦
          let (_, users, tokens) = (register-Registered input.org_name refl new).0 in
          record {
            emails = rw users (
                create-Once (λ (u : User). u.email) db w.users a.emails (new_user x (c.ids 3) input)
                  (λ u stored same.
                    not_found-excludes db (λ (u : User). u.email == input.email) w.users u new
                      stored (rw same (==_refl input.email))));
            one_active =
                new_family-OneActive x env c w (record { sub = c.ids 3; email = input.email })
                  device after fresh tokens a.one_active;
          }
    ]
