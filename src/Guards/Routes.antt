-- ===== src/Guards/Routes.antt =====
-- The handlers of the controllers and the metadata of their decorators, for the controllers under
-- apps/api/src/modules that are behind `TenantGuard` and `RbacGuard`.
use ai_saas_multi_tenant.Base.{false, List, [], ◌∷◌}
use ai_saas_multi_tenant.Rbac.{
  Permission, member_invite, member_remove, member_update_role, project_create, issue_create,
  issue_update, issue_delete, attachment_upload, org_manage_billing,
}
use ai_saas_multi_tenant.Guards.{RouteMeta}

abbrev pub requires : List Permission → RouteMeta
requires permissions = record { is_public = false; permissions = permissions; roles = [] }

pub data IssuesRoute : Type 0 where
  list get create update move remove : IssuesRoute

abbrev pub issues_meta : IssuesRoute → RouteMeta
issues_meta IssuesRoute.list = requires []
issues_meta IssuesRoute.get = requires []
issues_meta IssuesRoute.create = requires (issue_create ∷ [])
issues_meta IssuesRoute.update = requires (issue_update ∷ [])
issues_meta IssuesRoute.move = requires (issue_update ∷ [])
issues_meta IssuesRoute.remove = requires (issue_delete ∷ [])

-- The routes of `OrgsController` below `:orgSlug`; `create` and `list` have no tenant yet.
pub data OrgsRoute : Type 0 where
  get members add_member invites update_role remove_member : OrgsRoute

abbrev pub orgs_meta : OrgsRoute → RouteMeta
orgs_meta OrgsRoute.get = requires []
orgs_meta OrgsRoute.members = requires []
orgs_meta OrgsRoute.add_member = requires (member_invite ∷ [])
orgs_meta OrgsRoute.invites = requires (member_invite ∷ [])
orgs_meta OrgsRoute.update_role = requires (member_update_role ∷ [])
orgs_meta OrgsRoute.remove_member = requires (member_remove ∷ [])

pub data AttachmentsRoute : Type 0 where
  list presign confirm remove : AttachmentsRoute

abbrev pub attachments_meta : AttachmentsRoute → RouteMeta
attachments_meta AttachmentsRoute.list = requires []
attachments_meta AttachmentsRoute.presign = requires (attachment_upload ∷ [])
attachments_meta AttachmentsRoute.confirm = requires (attachment_upload ∷ [])
attachments_meta AttachmentsRoute.remove = requires (attachment_upload ∷ [])

pub data ProjectsRoute : Type 0 where
  list get create : ProjectsRoute

abbrev pub projects_meta : ProjectsRoute → RouteMeta
projects_meta ProjectsRoute.list = requires []
projects_meta ProjectsRoute.get = requires []
projects_meta ProjectsRoute.create = requires (project_create ∷ [])

-- `webhook` has neither guard.
pub data BillingRoute : Type 0 where
  checkout : BillingRoute

abbrev pub billing_meta : BillingRoute → RouteMeta
billing_meta BillingRoute.checkout = requires (org_manage_billing ∷ [])

-- The routes behind both guards.
pub data TenantRoute : Type 0 where
  issues : IssuesRoute → TenantRoute
  orgs : OrgsRoute → TenantRoute
  attachments : AttachmentsRoute → TenantRoute
  projects : ProjectsRoute → TenantRoute
  billing : BillingRoute → TenantRoute

abbrev pub tenant_meta : TenantRoute → RouteMeta
tenant_meta (TenantRoute.issues r) = issues_meta r
tenant_meta (TenantRoute.orgs r) = orgs_meta r
tenant_meta (TenantRoute.attachments r) = attachments_meta r
tenant_meta (TenantRoute.projects r) = projects_meta r
tenant_meta (TenantRoute.billing r) = billing_meta r
