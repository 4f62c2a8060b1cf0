-- ===== src/Services/Orgs/Rows.antt =====
-- The inputs and the rows of apps/api/src/modules/orgs/orgs.service.ts, and what its operations write to a row.
use ai_saas_multi_tenant.Base.{
  ℕ, ◌*◌, Bool, true, false, ◌&&◌, ◌||◌, Option, none, some, Text, ltb, ◌==◌,
}
use ai_saas_multi_tenant.Rbac.{Role, owner}
use ai_saas_multi_tenant.Model.Data.{
  RowId, Time, Organization, Membership, Invite, Subscription, SubscriptionPlan, SubscriptionStatus,
}

-- `INVITE_TTL_MS`
abbrev pub invite_ttl_ms : ℕ
invite_ttl_ms = 7 * 24 * 60 * 60 * 1000

abbrev pub is_found {ℓ} : {A : Type ℓ} → Option A → Bool
is_found none = false
is_found (some _) = true

abbrev pub is_owner : Role → Bool
is_owner owner = true
is_owner _ = false

-- `userId_organizationId`
abbrev pub is_membership : RowId → RowId → Membership → Bool
is_membership user org m = m.user_id == user && m.organization_id == org

abbrev pub set_role : Role → Membership → Membership
set_role role m = record m { role = role }

abbrev pub new_membership : RowId → RowId → RowId → Role → Membership
new_membership id user org role = record {
  id = id;
  user_id = user;
  organization_id = org;
  role = role;
}

abbrev pub new_subscription : RowId → RowId → Subscription
new_subscription id org = record {
  id = id;
  organization_id = org;
  stripe_customer_id = none;
  stripe_subscription_id = none;
  plan = SubscriptionPlan.free;
  status = SubscriptionStatus.active;
  seats = 1;
  current_period_end = none;
  cancel_at_period_end = false;
}

pub record CreateOrgInput : Type 0 where
  pub name : Text
  pub slug : Text

abbrev pub new_org : RowId → CreateOrgInput → Organization
new_org id input = record { id = id; slug = input.slug; name = input.name }

-- `status: 'added' | 'invited'`
pub data AddedMember : Type 0 where
  added : Membership → AddedMember
  invited : Invite → AddedMember

-- `organizationId_email`
abbrev pub is_invite : RowId → ℕ → Invite → Bool
is_invite org email i = i.organization_id == org && i.email == email

-- `!invite || invite.acceptedAt || invite.expiresAt < new Date()`
abbrev pub is_stale : Time → Invite → Bool
is_stale now i = is_found i.accepted_at || ltb i.expires_at now
