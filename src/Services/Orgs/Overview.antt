-- ===== src/Services/Orgs/Overview.antt =====
-- The organizations of a user: `listForUser` of apps/api/src/modules/orgs/orgs.service.ts, beside the guard of
-- apps/api/src/common/guards/tenant.guard.ts.
use ai_saas_multi_tenant.Base.{
  not_both, ℕ, ◌≡◌, refl, sym, ap, ◌∙◌, ◌↔◌, inl, inr, Bool, true, ◌&&◌, some, List, ◌∷◌, map,
  length, arith, ◌==◌, Text, text_eq, Option-cases,
}
use mathlib.Core.Path.{subst}
use ai_saas_multi_tenant.Base.{text_eq_refl}
use ai_saas_multi_tenant.Prisma.{Prisma}
use ai_saas_multi_tenant.Prisma.Rows.{In-select, select-In, In, select, All_lookup}
use ai_saas_multi_tenant.Rbac.{Role}
use ai_saas_multi_tenant.Model.Data.{RowId, Organization, Membership, Project}
use ai_saas_multi_tenant.Model.World.{World}
use ai_saas_multi_tenant.Model.Action.{Action, ok, throw, forbidden, gets}
use ai_saas_multi_tenant.Services.Orgs.{is_found}
use ai_saas_multi_tenant.Guards.{
  AuthenticatedRequest, org_slug, tenant_guard, tenant_of, stamp, enter, is_member_at,
}
use ai_saas_multi_tenant.Auth.Tokens.{AuthUser}

pub record OrgSummary : Type 0 where
  pub id : RowId
  pub slug : Text
  pub name : Text
  -- the roles of the memberships of the user
  pub roles : List Role
  pub projects : ℕ
  pub memberships : ℕ

module _ {db : Prisma} (user : RowId) (w : World db) where
  -- `where: { memberships: { some: { userId } } }`
  abbrev pub has_member : Organization → Bool
  has_member o = is_found (
      db.find_first (λ (m : Membership). m.user_id == user && m.organization_id == o.id)
        w.memberships)

  abbrev pub orgs_of : List Organization
  orgs_of = select has_member (db.rows w.organizations)

  abbrev pub summary : Organization → OrgSummary
  summary o = record {
    id = o.id;
    slug = o.slug;
    name = o.name;
    roles =
        map (λ (m : Membership). m.role)
          (select (λ (m : Membership). m.user_id == user && m.organization_id == o.id)
            (db.rows w.memberships));
    projects = length (select (λ (p : Project). p.organization_id == o.id) (db.rows w.projects));
    memberships =
        length (select (λ (m : Membership). m.organization_id == o.id) (db.rows w.memberships));
  }

-- In the order of creation.
unfoldable pub list_for_user : {db : Prisma} → RowId → Action db (List OrgSummary)
list_for_user user = gets (λ w. map (summary user w) (orgs_of user w))

-- Slugs are unique.
abbrev pub UniqueSlug : (db : Prisma) → World db → Type 0
UniqueSlug db w =
    (o p : Organization)
    → In o (db.rows w.organizations)
    → In p (db.rows w.organizations)
    → text_eq o.slug p.slug ≡ true
    → o ≡ p

module _ {db : Prisma} (w : World db) (unique : UniqueSlug db w) (user : RowId) (o : Organization)
    (there : In o (db.rows w.organizations)) where
  member_of_guard :
      (m : Membership)
      → is_member_at w user o.slug m ≡ true
      → (m.user_id == user && m.organization_id == o.id) ≡ true
  member_of_guard m admitted =
      elim (Option-cases (
        db.find_first (λ (p : Organization). p.id == m.organization_id && text_eq p.slug o.slug)
          w.organizations)) [
            | inl missing ↦ ground (arith, missing, admitted)
            | inr (p, found) ↦
                let (n, hit) = db.find_first-some _ w.organizations found in
                let same : p ≡ o = unique p o n there (ground (arith, hit)) in
                let same_id : p.id ≡ o.id = ap (λ (q : Organization). q.id) same in
                ground (arith, found, admitted, hit, same_id)
          ]

  guard_of_member :
      (m : Membership)
      → (m.user_id == user && m.organization_id == o.id) ≡ true
      → is_member_at w user o.slug m ≡ true
  guard_of_member m mine =
      elim (Option-cases (
        db.find_first (λ (p : Organization). p.id == m.organization_id && text_eq p.slug o.slug)
          w.organizations)) [
            | inl missing ↦
                let miss =
                  All_lookup _ (db.rows w.organizations)
                    (db.find_first-none _ w.organizations missing) there in
                absurd (ground (arith, miss, mine, text_eq_refl o.slug))
            | inr (p, found) ↦ ground (arith, found, mine)
          ]

-- A query of one row finds one exactly where a row meets it.
find_first-exists :
    (db : Prisma) {R : Type 0} (p : R → Bool) (t : db.Table R) (r : R)
    → In r (db.rows t)
    → p r ≡ true
    → (s : R) × (db.find_first p t ≡ some s)
find_first-exists db p t r m hit = elim (Option-cases (db.find_first p t)) [
  | inr (s, found) ↦ (s, found)
  | inl missing ↦
      absurd (not_both hit (All_lookup _ (db.rows t) (db.find_first-none p t missing) m))
]

-- A stored membership of the user in the organization.
abbrev pub IsMemberOf : {db : Prisma} → World db → RowId → Organization → Membership → Type 0
IsMemberOf {db} w user o m =
    In m (db.rows w.memberships) × (m.user_id ≡ user) × (m.organization_id ≡ o.id)

-- The tenant guard lets the request in, stamped for a stored membership of the user in the organization.
abbrev pub IsAdmitted :
    {db : Prisma} → World db → AuthenticatedRequest → RowId → Organization → Type 0
IsAdmitted w req user o =
    (entered : AuthenticatedRequest) × ((m : Membership) × IsMemberOf w user o m
      × (tenant_guard w req ≡ ok entered)
      × (entered.organization_id ≡ some o.id)
      × (entered.membership_id ≡ some m.id)
      × (entered.role ≡ some m.role))

-- Where slugs are unique, and a request of a signed-in user names a stored organization by its slug, which is not
-- empty: `listForUser` lists the organization to the user exactly where the tenant guard lets the request in, stamped
-- with the organization, id and role of a stored membership of the user in that very organization.
pub orgs_of-guard :
    {db : Prisma} (w : World db) (req : AuthenticatedRequest) (user : AuthUser) (o : Organization)
    (c : ℕ) (cs : Text)
    → UniqueSlug db w
    → In o (db.rows w.organizations)
    → o.slug ≡ c ∷ cs
    → req.user ≡ some user
    → org_slug req ≡ some (c ∷ cs)
    → In o (orgs_of user.sub w) ↔ IsAdmitted w req user.sub o
unfolding tenant_guard tenant_of
orgs_of-guard {db} w req user o c cs unique there slug signed named = (listed, admitted)
  where
    guard_is :
        tenant_guard w req
        ≡ enter req (db.find_first (is_member_at w user.sub (c ∷ cs)) w.memberships)
    guard_is = rw (signed, named) refl

    listed : In o (orgs_of user.sub w) → IsAdmitted w req user.sub o
    listed m =
        let (_, has) = In-select (has_member user.sub w) (db.rows w.organizations) o m in
        elim (Option-cases (
          db.find_first (λ (m : Membership). m.user_id == user.sub && m.organization_id == o.id)
            w.memberships)) [
              | inl missing ↦ absurd (ground (arith, missing, has))
              | inr (k, found) ↦
                  let (n, mine) = db.find_first-some _ w.memberships found in
                  let at_slug =
                    subst (λ t. is_member_at w user.sub t k ≡ true) slug
                      (guard_of_member w unique user.sub o there k mine) in
                  let (s, entered) =
                    find_first-exists db (is_member_at w user.sub (c ∷ cs)) w.memberships k n
                      at_slug in
                  let (stored, hit) = db.find_first-some _ w.memberships entered in
                  let own =
                    member_of_guard w unique user.sub o there s
                      (subst (λ t. is_member_at w user.sub t s ≡ true) (sym slug) hit) in
                  let at : s.organization_id ≡ o.id = ground (arith, own) in
                  (
                    stamp req s,
                    (
                      s,
                      (stored, ground (arith, own), at),
                      guard_is ∙ ap (enter req) entered,
                      ap some at,
                      refl,
                      refl,
                    ),
                  )
            ]

    admitted : IsAdmitted w req user.sub o → In o (orgs_of user.sub w)
    admitted (req', (m, _, passes, _, _, _)) =
        elim (Option-cases (db.find_first (is_member_at w user.sub (c ∷ cs)) w.memberships)) [
          | inl missing ↦ absurd (refused (sym (guard_is ∙ ap (enter req) missing) ∙ passes))
          | inr (k, found) ↦
              let (n, at_slug) = db.find_first-some _ w.memberships found in
              let mine =
                member_of_guard w unique user.sub o there k
                  (subst (λ t. is_member_at w user.sub t k ≡ true) (sym slug) at_slug) in
              let (s, there_too) =
                find_first-exists db
                  (λ (m : Membership). m.user_id == user.sub && m.organization_id == o.id)
                  w.memberships k n mine in
              select-In (has_member user.sub w) (db.rows w.organizations) o there
                (ap is_found there_too)
        ]
      where
        refused : {r : AuthenticatedRequest} → throw forbidden ≡ ok r → ⊥
        refused e = cc
