-- ===== src/Rbac.antt =====
-- Roles and permissions: packages/types/src/rbac.ts.
pub mod Laws
use ai_saas_multi_tenant.Base.{ℕ, Bool, false, ◌||◌, List, [], ◌∷◌, ◌++◌, arith, leb, ◌==◌}

pub data Role : Type 0 where
  owner admin member guest : Role

-- `ROLE_RANK`
abbrev pub role_rank : Role → ℕ
role_rank owner = 3
role_rank admin = 2
role_rank member = 1
role_rank guest = 0

pub data Permission : Type 0 where
  org_update org_delete org_manage_billing : Permission
  member_invite member_remove member_update_role : Permission
  project_create project_update project_delete : Permission
  issue_create issue_update issue_delete issue_assign : Permission
  comment_create attachment_upload audit_read : Permission

-- The strings are compared, so each has a number.
abbrev pub permission_code : Permission → ℕ
permission_code org_update = 0
permission_code org_delete = 1
permission_code org_manage_billing = 2
permission_code member_invite = 3
permission_code member_remove = 4
permission_code member_update_role = 5
permission_code project_create = 6
permission_code project_update = 7
permission_code project_delete = 8
permission_code issue_create = 9
permission_code issue_update = 10
permission_code issue_delete = 11
permission_code issue_assign = 12
permission_code comment_create = 13
permission_code attachment_upload = 14
permission_code audit_read = 15

abbrev pub member_perms : List Permission
member_perms =
    project_create ∷ project_update ∷ issue_create ∷ issue_update ∷ issue_delete ∷ issue_assign
    ∷ comment_create ∷ attachment_upload ∷ []

abbrev pub admin_perms : List Permission
admin_perms =
    member_perms
    ++ org_update ∷ member_invite ∷ member_remove ∷ member_update_role ∷ project_delete ∷ audit_read
      ∷ []

abbrev pub owner_perms : List Permission
owner_perms = admin_perms ++ org_delete ∷ org_manage_billing ∷ []

abbrev pub guest_perms : List Permission
guest_perms = comment_create ∷ []

abbrev pub role_permissions : Role → List Permission
role_permissions owner = owner_perms
role_permissions admin = admin_perms
role_permissions member = member_perms
role_permissions guest = guest_perms

-- `Set.prototype.has`
abbrev pub has : List Permission → Permission → Bool
has [] p = false
has (q ∷ qs) p = permission_code q == permission_code p || has qs p

unfoldable pub can : Role → Permission → Bool
can role permission = has (role_permissions role) permission

unfoldable pub at_least : Role → Role → Bool
at_least role min = leb (role_rank min) (role_rank role)
