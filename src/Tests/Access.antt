-- ===== src/Tests/Access.antt =====
-- The theorems on permissions, guards and presence at the fixture.
use ai_saas_multi_tenant.Base.{◌+◌, ◌≡◌, ◌↔◌, refl, sym, ◌∙◌, inl, inr, none, some, [], ◌∷◌}
use ai_saas_multi_tenant.Rbac.{can}
use ai_saas_multi_tenant.Model.Data.{Membership, Organization}
use ai_saas_multi_tenant.Auth.Tokens.{AuthUser}
use ai_saas_multi_tenant.Guards.{
  AuthenticatedRequest, RouteMeta, tenant_of, tenant_guard, authorize, none_missing, rbac_guard,
  guarded, stamp,
}
use ai_saas_multi_tenant.Guards.Routes.{TenantRoute, IssuesRoute, tenant_meta}
use ai_saas_multi_tenant.Guards.Laws.{AllCan, IsEntry, guarded-permitted}
use ai_saas_multi_tenant.Prisma.Memory.{memory}
use ai_saas_multi_tenant.Prisma.Rows.{In}
use ai_saas_multi_tenant.Services.Orgs.Overview.{UniqueSlug, IsAdmitted, orgs_of, orgs_of-guard}
use ai_saas_multi_tenant.Realtime.{Room, PresenceUser, Node, enter_room, handle_disconnect}
use ai_saas_multi_tenant.Realtime.Presence.{client_in, counted, rejoin_lingers}
use ai_saas_multi_tenant.Base.{Text}
use ai_saas_multi_tenant.Tests.Fixture.{world, member_row}

abbrev request : AuthenticatedRequest
request = record {
  user = some (record { sub = 2; email = 12 });
  org_slug_param = some (97 ∷ []);
  org_slug_header = none;
  organization_id = none;
  membership_id = none;
  role = none;
}

abbrev create_route : RouteMeta
create_route = tenant_meta (TenantRoute.issues IssuesRoute.create)

guarded_example :
    (user : AuthUser) × ((slug : Text) × ((m : Membership) × IsEntry world request user slug m
        × (stamp request member_row ≡ stamp request m)
        × AllCan m.role create_route.permissions))
unfolding guarded tenant_guard tenant_of rbac_guard authorize none_missing can
guarded_example = guarded-permitted create_route world request (stamp request member_row) refl

abbrev room : Room
room = record { organization_id = 4; project_id = 60 }

abbrev viewer : PresenceUser
viewer = record { user_id = 2; name = []; avatar_url = none; cursor = none }

abbrev node : Node
node = record { presence = []; sent = [] }

rejoin_example :
    counted room viewer
      (handle_disconnect (enter_room room (enter_room room (client_in viewer [], node)))).1
    ≡ 0 + 1
rejoin_example = rejoin_lingers room viewer node 0 refl

abbrev home : Organization
home = record { id = 4; slug = 97 ∷ []; name = 65 ∷ [] }

world-UniqueSlug : UniqueSlug memory world
world-UniqueSlug o p (inl e) (inl f) same = e ∙ sym f
world-UniqueSlug o p (inl e) (inr m) same = absurd m
world-UniqueSlug o p (inr m) n same = absurd m

overview_example : In home (orgs_of 2 world) ↔ IsAdmitted world request 2 home
overview_example =
    orgs_of-guard world request (record { sub = 2; email = 12 }) home 97 [] world-UniqueSlug
      (inl refl) refl refl refl
