-- ===== src/Services/Orgs.antt =====
-- Organizations, members and invites: apps/api/src/modules/orgs/orgs.service.ts.
mod Rows
pub mod Overview
pub mod Owners
pub mod Demotion
pub mod Invites
pub use Rows.*
use ai_saas_multi_tenant.Base.{
  ℕ, ◌+◌, ◌*◌, Bool, true, false, not, ◌&&◌, ◌||◌, Option, none, some, List, [], ◌∷◌, ◌++◌, Text,
  text_eq, ltb, ◌==◌, if◌then◌else◌,
}
use ai_saas_multi_tenant.Prisma.{Prisma}
use ai_saas_multi_tenant.Prisma.Rows.{select}
use ai_saas_multi_tenant.Rbac.{Role, owner, admin, member, guest, role_rank}
use ai_saas_multi_tenant.Model.Data.{
  RowId, Time, User, Organization, Membership, Invite, Subscription, SubscriptionPlan,
  SubscriptionStatus, AuditAction, Metadata, MailText,
}
use ai_saas_multi_tenant.Model.World.{World}
use ai_saas_multi_tenant.Model.Platform.{External}
use ai_saas_multi_tenant.Model.Action.{
  Action, Call, bad_request, forbidden, not_found, record_missing, pure, gets, or_throw, throw_if,
  modify, transaction, ◌>>=◌, ◌>>◌,
}
use ai_saas_multi_tenant.Services.Audit.{audit_entry, record_audit}

module _ {db : Prisma} where
  abbrev pub find_membership : RowId → RowId → World db → Option Membership
  find_membership user org w = db.find_first (is_membership user org) w.memberships

  -- `organization.create` with its nested membership and subscription
  abbrev pub insert_org : Call → RowId → Organization → World db → World db
  insert_org c user org w = record w {
    organizations = db.create org w.organizations;
    memberships = db.create (new_membership (c.ids 1) user org.id owner) w.memberships;
    subscriptions = db.create (new_subscription (c.ids 2) org.id) w.subscriptions;
  }

  -- `membership.upsert`, by whether the row exists
  abbrev pub write_membership :
      Call → RowId → RowId → Role → Option Membership → Action db Membership
  write_membership c user org role (some old) = do
    modify (λ w. record w {
      memberships = db.update_many (is_membership user org) (set_role role) w.memberships;
    })
    pure (set_role role old)
  write_membership c user org role none = do
    modify (λ w. record w {
      memberships = db.create (new_membership (c.ids 0) user org role) w.memberships;
    })
    pure (new_membership (c.ids 0) user org role)

  abbrev pub upsert_membership : Call → RowId → RowId → Role → Action db Membership
  upsert_membership c user org role = do
    write_membership c user org role (← gets (find_membership user org))

module _ {db : Prisma} (c : Call) where
  unfoldable pub create : RowId → CreateOrgInput → Action db Organization
  create user input = do
    clash ←
        gets (λ w. db.find_first (λ (o : Organization). text_eq o.slug input.slug) w.organizations)
    throw_if (is_found clash) bad_request
    let org = new_org (c.ids 0) input
    modify (insert_org c user org)
    record_audit c (audit_entry org.id user AuditAction.org_created org.id Metadata.nothing)
    pure org

  -- `updateMemberRole`; a role of the type `Exclude<Role, 'OWNER'>` is checked by the schema.
  unfoldable pub update_member_role : RowId → RowId → RowId → Role → Action db Membership
  update_member_role org actor target role = do
    m ← or_throw not_found (← gets (find_membership target org))
    throw_if (is_owner m.role) forbidden
    modify (λ w. record w {
      memberships = db.update_many (λ r. r.id == m.id) (set_role role) w.memberships;
    })
    record_audit c (
        audit_entry org actor AuditAction.member_role_updated m.id
          (Metadata.reassigned m.role role))
    pure (set_role role m)

  unfoldable pub remove_member : RowId → RowId → RowId → Action db (Unit {0})
  remove_member org actor target = do
    m ← or_throw not_found (← gets (find_membership target org))
    throw_if (is_owner m.role) forbidden
    modify (λ w. record w { memberships = db.delete_many (λ r. r.id == m.id) w.memberships })
    record_audit c (audit_entry org actor AuditAction.member_removed m.id (Metadata.about target))

module _ {db : Prisma} where
  unfoldable pub list_members : RowId → World db → List Membership
  list_members org w = select (λ m. m.organization_id == org) (db.rows w.memberships)

  unfoldable pub list_invites : RowId → World db → List Invite
  list_invites org w =
      select (λ i. i.organization_id == org && not (is_found i.accepted_at)) (db.rows w.invites)

  unfoldable pub get_by_slug : RowId → Action db Organization
  get_by_slug org = do
    or_throw record_missing
        (← gets (λ w. db.find_first (λ (o : Organization). o.id == org) w.organizations))

module _ (x : External) (c : Call) where
  abbrev pub new_invite : RowId → RowId → ℕ → Role → Invite
  new_invite org actor email role = record {
    id = c.ids 0;
    organization_id = org;
    email = email;
    role = role;
    token_hash = x.sha256 c.random;
    invited_by_id = actor;
    expires_at = c.now + invite_ttl_ms;
    accepted_at = none;
  }

  -- The `update` of the invite's upsert.
  abbrev pub renew_invite : RowId → Role → Invite → Invite
  renew_invite actor role i = record i {
    role = role;
    token_hash = x.sha256 c.random;
    invited_by_id = actor;
    expires_at = c.now + invite_ttl_ms;
    accepted_at = none;
  }

  module _ {db : Prisma} where
    abbrev pub write_invite : RowId → RowId → ℕ → Role → Option Invite → Action db Invite
    write_invite org actor email role (some old) = do
      modify (λ w. record w {
        invites = db.update_many (is_invite org email) (renew_invite actor role) w.invites;
      })
      pure (renew_invite actor role old)
    write_invite org actor email role none = do
      modify (λ w. record w { invites = db.create (new_invite org actor email role) w.invites })
      pure (new_invite org actor email role)

    -- A user that exists becomes a member at once.
    unfoldable pub add_user : RowId → RowId → ℕ → Role → User → Action db AddedMember
    add_user org actor email role user = do
      m ← upsert_membership c user.id org role
      record_audit c
          (audit_entry org actor AuditAction.member_added m.id (Metadata.addressed email role))
      pure (added m)

    -- An unknown address gets an invite, by e-mail.
    unfoldable pub invite_address : RowId → RowId → ℕ → Role → Action db AddedMember
    invite_address org actor email role = do
      old ← gets (λ w. db.find_first (is_invite org email) w.invites)
      invite ← write_invite org actor email role old
      o ←
          or_throw record_missing
            (← gets (λ w. db.find_first (λ (o : Organization). o.id == org) w.organizations))
      modify (λ w. record w {
        mails =
            w.mails ++ record { to = email; text = MailText.invitation o.name role c.random } ∷ [];
      })
      record_audit c (
          audit_entry org actor AuditAction.member_invited invite.id
            (Metadata.addressed email role))
      pure (invited invite)

    -- by whether the address is a user's
    unfoldable pub add_or_invite : RowId → RowId → ℕ → Role → Option User → Action db AddedMember
    unfolding add_user invite_address
    add_or_invite org actor email role (some user) = add_user org actor email role user
    add_or_invite org actor email role none = invite_address org actor email role

    unfoldable pub add_member : RowId → RowId → ℕ → Role → Action db AddedMember
    unfolding add_or_invite
    add_member org actor email role = do
      user ← gets (λ w. db.find_first (λ (u : User). u.email == x.lower_case email) w.users)
      add_or_invite org actor (x.lower_case email) role user

    -- The transaction: membership and burnt invite.
    unfoldable pub redeem : RowId → Invite → Action db Membership
    redeem user i = transaction do
      m ← upsert_membership c user i.organization_id i.role
      modify (λ w. record w {
        invites =
            db.update_many (λ j. j.id == i.id) (λ j. record j { accepted_at = some c.now })
              w.invites;
      })
      pure m

    unfoldable pub accept_invite : RowId → ℕ → ℕ → Action db Membership
    unfolding redeem
    accept_invite user user_email token = do
      i ←
          or_throw bad_request
            (← gets (λ w. db.find_first (λ (i : Invite). i.token_hash == x.sha256 token) w.invites))
      throw_if (is_stale c.now i) bad_request
      throw_if (not (x.lower_case i.email == x.lower_case user_email)) forbidden
      m ← redeem user i
      record_audit c (
          audit_entry i.organization_id user AuditAction.invite_accepted m.id (Metadata.about i.id))
      pure m
