-- ===== src/Rbac/Laws.antt =====
-- The permission matrix of packages/types/src/rbac.ts.
use ai_saas_multi_tenant.Base.{◌≡◌, refl}
use ai_saas_multi_tenant.Rbac.{
  Role, owner, admin, member, guest, Permission, org_update, org_delete, org_manage_billing,
  member_invite, member_remove, member_update_role, project_delete, comment_create, audit_read, can,
  at_least,
}

-- The least role that holds a permission.
abbrev pub least_role : Permission → Role
least_role org_delete = owner
least_role org_manage_billing = owner
least_role org_update = admin
least_role member_invite = admin
least_role member_remove = admin
least_role member_update_role = admin
least_role project_delete = admin
least_role audit_read = admin
least_role comment_create = guest
least_role _ = member

-- The explicit permission sets of the four roles are nested: a role holds a permission exactly when
-- it ranks at least as high as the least role that holds it.
pub can-at_least : (r : Role) (p : Permission) → can r p ≡ at_least r (least_role p)
unfolding can at_least
can-at_least owner org_update = refl
can-at_least owner _ = refl
can-at_least admin org_update = refl
can-at_least admin _ = refl
can-at_least member org_update = refl
can-at_least member _ = refl
can-at_least guest org_update = refl
can-at_least guest _ = refl
