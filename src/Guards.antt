-- ===== src/Guards.antt =====
-- The guards in front of the controllers: apps/api/src/common/guards, decorators and types.
pub mod Routes
pub mod Laws
use ai_saas_multi_tenant.Base.{
  ℕ, Bool, true, false, not, ◌&&◌, ◌||◌, Option, none, some, List, [], ◌∷◌, Text, text_eq, ◌==◌,
  if◌then◌else◌,
}
use ai_saas_multi_tenant.Prisma.{Prisma}
use ai_saas_multi_tenant.Rbac.{Role, Permission, can, at_least}
use ai_saas_multi_tenant.Auth.Tokens.{AuthUser, is_set}
use ai_saas_multi_tenant.Model.Data.{RowId, Organization, Membership}
use ai_saas_multi_tenant.Model.World.{World}
use ai_saas_multi_tenant.Model.Action.{Result, ok, throw, bad_request, forbidden}

pub record AuthenticatedRequest : Type 0 where
  pub user : Option AuthUser
  -- `params.orgSlug` and the header `x-org-slug`
  pub org_slug_param : Option Text
  pub org_slug_header : Option Text
  pub organization_id : Option RowId
  pub membership_id : Option RowId
  pub role : Option Role

-- The metadata that the decorators leave on a handler or its class.
pub record RouteMeta : Type 0 where
  pub is_public : Bool
  pub permissions : List Permission
  pub roles : List Role

-- `super.canActivate` is passport's, and given by what it returns for the request.
unfoldable pub jwt_auth_guard : RouteMeta → Result Bool → Result Bool
jwt_auth_guard route passport = if route.is_public then ok true else passport

-- `param ?? header`
abbrev pub org_slug : AuthenticatedRequest → Option Text
org_slug req = elim req.org_slug_param [ some s ↦ some s | none ↦ req.org_slug_header ]

abbrev pub stamp : AuthenticatedRequest → Membership → AuthenticatedRequest
stamp req m = record req {
  organization_id = some m.organization_id;
  membership_id = some m.id;
  role = some m.role;
}

abbrev pub enter : AuthenticatedRequest → Option Membership → Result AuthenticatedRequest
enter req none = throw forbidden
enter req (some m) = ok (stamp req m)

module _ {db : Prisma} where
  -- `where: { userId, organization: { slug } }`
  abbrev pub is_member_at : World db → RowId → Text → Membership → Bool
  is_member_at w user slug m =
      m.user_id == user
      && is_set (
          db.find_first (λ (o : Organization). o.id == m.organization_id && text_eq o.slug slug)
            w.organizations)

  -- The empty string is missing too.
  unfoldable pub tenant_of :
      World db → AuthenticatedRequest → RowId → Option Text → Result AuthenticatedRequest
  tenant_of w req user none = throw bad_request
  tenant_of w req user (some []) = throw bad_request
  tenant_of w req user (some (c ∷ cs)) =
      enter req (db.find_first (is_member_at w user (c ∷ cs)) w.memberships)

  -- `TenantGuard.canActivate`, with the request as it leaves it.
  unfoldable pub tenant_guard : World db → AuthenticatedRequest → Result AuthenticatedRequest
  unfolding tenant_of
  tenant_guard w req = elim req.user [
    | none ↦ throw forbidden
    | some user ↦ tenant_of w req user.sub (org_slug req)
  ]

abbrev pub is_empty {ℓ} : {A : Type ℓ} → List A → Bool
is_empty [] = true
is_empty (_ ∷ _) = false

-- `roles.some((r) => atLeast(role, r))`
unfoldable pub some_at_least : Role → List Role → Bool
some_at_least role [] = false
some_at_least role (r ∷ rs) = at_least role r || some_at_least role rs

-- `permissions.filter((p) => !can(role, p))` is empty.
unfoldable pub none_missing : Role → List Permission → Bool
none_missing role [] = true
none_missing role (p ∷ ps) = can role p && none_missing role ps

-- A missing list and an empty one are treated alike.
unfoldable pub authorize : RouteMeta → Role → Result Bool
authorize route role =
    if not (is_empty route.roles) && not (some_at_least role route.roles)
    then throw forbidden
    else if not (none_missing role route.permissions)
    then throw forbidden
    else ok true

unfoldable pub rbac_guard : RouteMeta → AuthenticatedRequest → Result Bool
unfolding authorize
rbac_guard route req =
    if is_empty route.permissions && is_empty route.roles
    then ok true
    else elim req.role [ none ↦ throw forbidden | some role ↦ authorize route role ]

-- `@UseGuards(TenantGuard, RbacGuard)`
unfoldable pub guarded :
    {db : Prisma} → RouteMeta → World db → AuthenticatedRequest → Result AuthenticatedRequest
guarded route w req = elim (tenant_guard w req) [
  | throw e ↦ throw e
  | ok entered ↦ elim (rbac_guard route entered) [
    | throw e ↦ throw e
    | ok b ↦ if b then ok entered else throw forbidden
  ]
]
