-- ===== src/Guards/Laws.antt =====
-- The requests that tenant.guard.ts and rbac.guard.ts let through.
use ai_saas_multi_tenant.Base.{
  ◌≡◌, refl, sym, ap, ◌∙◌, inl, inr, Bool, true, false, Option, none, some, List, [], ◌∷◌, arith,
  Text, Option-cases, Bool-cases, if◌then◌else◌,
}
use mathlib.Core.Path.{subst}
use ai_saas_multi_tenant.Prisma.{Prisma}
use ai_saas_multi_tenant.Prisma.Rows.{In}
use ai_saas_multi_tenant.Rbac.{Role, Permission, can}
use ai_saas_multi_tenant.Auth.Tokens.{AuthUser}
use ai_saas_multi_tenant.Model.Data.{Membership}
use ai_saas_multi_tenant.Model.World.{World}
use ai_saas_multi_tenant.Model.Action.{Result, ok, throw, forbidden}
use ai_saas_multi_tenant.Guards.{
  AuthenticatedRequest, RouteMeta, org_slug, is_member_at, stamp, tenant_of, tenant_guard, is_empty,
  none_missing, authorize, rbac_guard, guarded,
}

module _ {db : Prisma} (w : World db) (req : AuthenticatedRequest) where
  -- The stored membership, of the authenticated user in the organization that the route names.
  abbrev pub IsEntry : AuthUser → Text → Membership → Type 0
  IsEntry user slug m =
      (req.user ≡ some user)
      × (org_slug req ≡ some slug)
      × In m (db.rows w.memberships)
      × (is_member_at w user.sub slug m ≡ true)

  tenant_of-entry :
      (user : AuthUser) (slug : Option Text) (req' : AuthenticatedRequest)
      → tenant_of w req user.sub slug ≡ ok req'
      → (s : Text) × (slug ≡ some s)
        × ((m : Membership) × In m (db.rows w.memberships)
            × (is_member_at w user.sub s m ≡ true)
            × (req' ≡ stamp req m))
  unfolding tenant_of
  tenant_of-entry user none req' e = cc
  tenant_of-entry user (some []) req' e = cc
  tenant_of-entry user (some (c ∷ cs)) req' e =
      elim (Option-cases (db.find_first (is_member_at w user.sub (c ∷ cs)) w.memberships)) [
        | inl missing ↦ absurd (refused (rw missing at e))
        | inr (m, found) ↦
            let (stored, holds) = db.find_first-some _ w.memberships found in
            (c ∷ cs, refl, (m, stored, holds, sym (accepted m (rw found at e))))
      ]
    where
      refused : throw forbidden ≡ ok req' → ⊥
      refused k = cc

      accepted : (m : Membership) → ok (stamp req m) ≡ ok req' → stamp req m ≡ req'
      accepted m k = cc

  tenant_guard-user :
      (user : AuthUser)
      → req.user ≡ some user
      → tenant_guard w req ≡ tenant_of w req user.sub (org_slug req)
  unfolding tenant_guard
  tenant_guard-user user has = rw has

  -- What `TenantGuard` lets through belongs to an authenticated user with a stored membership in the
  -- organization of the slug, and leaves with that membership's organization, id and role.
  pub tenant_guard-IsEntry :
      (req' : AuthenticatedRequest)
      → tenant_guard w req ≡ ok req'
      → (user : AuthUser) × ((slug : Text) × ((m : Membership) × IsEntry user slug m
            × (req' ≡ stamp req m)))
  unfolding tenant_guard
  tenant_guard-IsEntry req' e = elim (Option-cases req.user) [
    | inl missing ↦ absurd (ground (arith, missing, e))
    | inr (user, has) ↦
        let (slug, named, (m, stored, holds, same)) =
          tenant_of-entry user (org_slug req) req' (sym (tenant_guard-user user has) ∙ e) in
        (user, (slug, (m, (has, named, stored, holds), same)))
  ]

-- The role holds every permission of the list.
abbrev pub AllCan : Role → List Permission → Type 0
AllCan role [] = Unit
AllCan role (p ∷ ps) = (can role p ≡ true) × AllCan role ps

none_missing-AllCan :
    (role : Role) (ps : List Permission) → none_missing role ps ≡ true → AllCan role ps
unfolding none_missing
none_missing-AllCan role [] e = tt
none_missing-AllCan role (p ∷ ps) e = (ground arith, none_missing-AllCan role ps (ground arith))

authorize-AllCan :
    (route : RouteMeta) (role : Role)
    → authorize route role ≡ ok true
    → AllCan role route.permissions
unfolding authorize
authorize-AllCan route role e = none_missing-AllCan role route.permissions (ground arith)

empty-AllCan : (role : Role) (ps : List Permission) → is_empty ps ≡ true → AllCan role ps
empty-AllCan role [] e = tt
empty-AllCan role (p ∷ ps) e = cc

rbac_guard-AllCan :
    (route : RouteMeta) (req : AuthenticatedRequest) (role : Role)
    → req.role ≡ some role
    → rbac_guard route req ≡ ok true
    → AllCan role route.permissions
unfolding rbac_guard
rbac_guard-AllCan route req role has e = elim (Bool-cases (is_empty route.permissions)) [
  | inl free ↦ empty-AllCan role route.permissions free
  | inr bound ↦ authorize-AllCan route role (rw (bound, has) at e)
]

allowed-split :
    (entered req' : AuthenticatedRequest) (answer : Result Bool)
    → (elim answer [ throw e ↦ throw e | ok b ↦ if b then ok entered else throw forbidden ])
      ≡ ok req'
    → (entered ≡ req') × (answer ≡ ok true)
allowed-split entered req' (ok true) e = (cc, refl)
allowed-split entered req' (ok false) e = cc
allowed-split entered req' (throw x) e = cc

both-split :
    (route : RouteMeta) (entry : Result AuthenticatedRequest) (req' : AuthenticatedRequest)
    → (elim entry [
      | throw e ↦ throw e
      | ok entered ↦ elim (rbac_guard route entered) [
        | throw e ↦ throw e
        | ok b ↦ if b then ok entered else throw forbidden
      ]
    ])
      ≡ ok req'
    → (entry ≡ ok req') × (rbac_guard route req' ≡ ok true)
both-split route (throw x) req' e = cc
both-split route (ok entered) req' e =
    let (same, allowed) = allowed-split entered req' (rbac_guard route entered) e in
    (ap ok same, subst (λ r. rbac_guard route r ≡ ok true) same allowed)

guarded-split :
    {db : Prisma} (route : RouteMeta) (w : World db) (req req' : AuthenticatedRequest)
    → guarded route w req ≡ ok req'
    → (tenant_guard w req ≡ ok req') × (rbac_guard route req' ≡ ok true)
unfolding guarded
guarded-split route w req req' e = both-split route (tenant_guard w req) req' e

-- A request that passes both guards of a route belongs to an authenticated user with a stored
-- membership in the organization of the slug, carries that organization and the role, and the role
-- holds every permission that the route requires.
pub guarded-permitted :
    {db : Prisma} (route : RouteMeta) (w : World db) (req req' : AuthenticatedRequest)
    → guarded route w req ≡ ok req'
    → (user : AuthUser) × ((slug : Text) × ((m : Membership) × IsEntry w req user slug m
          × (req' ≡ stamp req m)
          × AllCan m.role route.permissions))
guarded-permitted route w req req' e =
    let (entered, allowed) = guarded-split route w req req' e in
    let (user, (slug, (m, entry, same))) = tenant_guard-IsEntry w req req' entered in
    (
      user,
      (
        slug,
        (
          m,
          entry,
          same,
          rbac_guard-AllCan route req' m.role (ap (λ (r : AuthenticatedRequest). r.role) same)
              allowed,
        ),
      ),
    )
