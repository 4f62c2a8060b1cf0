-- ===== src/Auth/Registration/Outcome.antt =====
-- The outcomes of `register`.
use ai_saas_multi_tenant.Base.{
  suc, ◌+◌, ◌*◌, ◌≡◌, ◌≢◌, refl, ◌⊎◌, inl, inr, true, false, Option, none, some, [], ◌∷◌, arith,
  Text, text_eq, length, Option-cases,
}
use mathlib.Core.Path.{subst}
use ai_saas_multi_tenant.Base.{text_eq-≡, text_eq_refl}
use ai_saas_multi_tenant.Prisma.{Prisma}
use ai_saas_multi_tenant.Prisma.Rows.{In, All_lookup}
use ai_saas_multi_tenant.Rbac.{owner}
use ai_saas_multi_tenant.Model.Data.{User, DeviceInfo, Organization}
use ai_saas_multi_tenant.Model.World.{World}
use ai_saas_multi_tenant.Model.Platform.{External, Env}
use ai_saas_multi_tenant.Model.Action.{Call, ok, throw, conflict}
use ai_saas_multi_tenant.Services.Audit.{record_audit}
use ai_saas_multi_tenant.Services.Orgs.{new_membership}
use ai_saas_multi_tenant.Auth.Tokens.{issue_for_user, create_refresh, sign_access}
use ai_saas_multi_tenant.Auth.Accounts.{Session, find_user}
use ai_saas_multi_tenant.Auth.Slugs.{base_slug, candidate}
use ai_saas_multi_tenant.Auth.Slugs.Rounds.{free_slug_cases, no_more_names}
use ai_saas_multi_tenant.Auth.Slugs.Form.{IsSlug, base_slug-IsSlug, candidate-IsSlug}
use ai_saas_multi_tenant.Auth.Registration.{
  RegisterInput, new_user, is_taken, pick_slug, named_org, create_org_for_user, bootstrap, register,
}

module _ {db : Prisma} (w : World db) where
  -- No organization has the slug.
  abbrev pub IsFree : Text → Type 0
  IsFree slug = (o : Organization) → In o (db.rows w.organizations) → o.slug ≢ slug

  is_taken-row :
      (slug : Text)
      → is_taken w slug ≡ true
      → (o : Organization) × In o (db.rows w.organizations) × (o.slug ≡ slug)
  is_taken-row slug taken =
      elim (Option-cases
        (db.find_first (λ (o : Organization). text_eq o.slug slug) w.organizations)) [
          | inl missing ↦ absurd (ground (arith, missing, taken))
          | inr (o, found) ↦
              let (m, same) = db.find_first-some _ w.organizations found in
              (o, m, text_eq-≡ o.slug slug same)
        ]

  is_taken-IsFree : (slug : Text) → is_taken w slug ≡ false → IsFree slug
  is_taken-IsFree slug free o m same =
      elim (Option-cases
        (db.find_first (λ (o : Organization). text_eq o.slug slug) w.organizations)) [
          | inr (p, found) ↦ absurd (ground (arith, found, free))
          | inl missing ↦
              let miss =
                All_lookup _ (db.rows w.organizations)
                  (db.find_first-none _ w.organizations missing) m in
              absurd (differs (text_eq_refl slug) (subst (λ s. text_eq s slug ≡ false) same miss))
        ]
    where
      differs : text_eq slug slug ≡ true → text_eq slug slug ≡ false → ⊥
      differs p q = cc

  -- The loop over candidate slugs ends within its fuel, whatever organizations there are: it returns a
  -- slug that no organization has, not empty, of `[a-z0-9-]`, and with no dash in front.
  pub pick_slug_total :
      (x : External) (name : Text)
      → (slug : Text) × (pick_slug x name w ≡ some slug) × IsFree slug × IsSlug slug
  unfolding pick_slug
  pick_slug_total x name =
      elim (free_slug_cases (is_taken w) (base_slug x name) (suc (length (db.rows w.organizations)))
        0) [
          | inl (j, e, free) ↦ (
            candidate (base_slug x name) j,
            e,
            is_taken-IsFree _ free,
            candidate-IsSlug (base_slug x name) j (base_slug-IsSlug x name).0,
          )
          | inr all ↦
              let bound =
                no_more_names (λ (o : Organization). o.slug) (base_slug x name)
                  (suc (length (db.rows w.organizations))) 0 (db.rows w.organizations)
                  (λ j low high. is_taken-row (candidate (base_slug x name) j) (all j low high)) in
              absurd (omega (arith, bound))
        ]

module _ (x : External) (env : Env) (c : Call) {db : Prisma} (input : RegisterInput)
    (device : DeviceInfo) (w : World db) where
  abbrev pub registered : User
  registered = new_user x (c.ids 3) input

  abbrev pub after : World db
  after = (register x env c input device w).1

  -- What became of the organization that was asked for.
  abbrev pub OrgOutcome : Option Text → Type 0
  OrgOutcome none = after.organizations ≡ w.organizations
  OrgOutcome (some []) = after.organizations ≡ w.organizations
  OrgOutcome (some (d ∷ ds)) =
      (slug : Text) × IsFree w slug
      × IsSlug slug
      × (after.organizations ≡ db.create (named_org (c.ids 0) slug (d ∷ ds)) w.organizations)
      × (after.memberships
          ≡ db.create (new_membership (c.ids 1) (c.ids 3) (c.ids 0) owner) w.memberships)

  -- A session of the new user, whose row is stored.
  abbrev pub IsRegistered : Type 0
  IsRegistered =
      ((s : Session) × ((register x env c input device w).0 ≡ ok s)
        × (s.user_id ≡ c.ids 3)
        × (s.tokens.refresh_token ≡ c.random))
      × (after.users ≡ db.create registered w.users)

  pub register-known :
      (u : User)
      → find_user x env c input.email w ≡ some u
      → register x env c input device w ≡ (throw conflict, w)
  unfolding register
  register-known u found = rw found

  abbrev opened : Session
  opened = record {
    tokens = record {
      access_token = sign_access x env c (record { sub = c.ids 3; email = input.email });
      refresh_token = c.random;
      refresh_expires_at = c.now + env.jwt_refresh_ttl * 1000;
    };
    user_id = c.ids 3;
  }

  module _ (fresh : find_user x env c input.email w ≡ none) where
    registered-IsRegistered : (o : Option Text) → input.org_name ≡ o → IsRegistered × OrgOutcome o
    unfolding register bootstrap create_org_for_user issue_for_user create_refresh record_audit
    registered-IsRegistered none e = (
      ((opened, ground (arith, fresh, e), refl, refl), ground (arith, fresh, e)),
      ground (arith, fresh, e),
    )
    registered-IsRegistered (some []) e = (
      ((opened, ground (arith, fresh, e), refl, refl), ground (arith, fresh, e)),
      ground (arith, fresh, e),
    )
    registered-IsRegistered (some (d ∷ ds)) e =
        let stored = record w { users = db.create registered w.users } in
        let (slug, picked, free, form) = pick_slug_total stored x (d ∷ ds) in
        (
          (
            (opened, ground (arith, fresh, e, picked), refl, refl),
            ground (arith, fresh, e, picked),
          ),
          (slug, free, form, ground (arith, fresh, e, picked), ground (arith, fresh, e, picked)),
        )

  -- `register` throws `conflict` and changes nothing where a user has the address, and else returns a
  -- session of a new user, whose row is stored; with a name for an organization it also stores that
  -- organization, under a slug that none had, not empty and of `[a-z0-9-]` with no dash in front, with
  -- the user as its owner.
  pub register_cases :
      (((u : User) × (find_user x env c input.email w ≡ some u))
        × (register x env c input device w ≡ (throw conflict, w)))
      ⊎ ((find_user x env c input.email w ≡ none) × IsRegistered × OrgOutcome input.org_name)
  register_cases = elim (Option-cases (find_user x env c input.email w)) [
    | inr (u, found) ↦ inl ((u, found), register-known u found)
    | inl fresh ↦
        let (stored, org) = registered-IsRegistered fresh input.org_name refl in
        inr (fresh, stored, org)
  ]
