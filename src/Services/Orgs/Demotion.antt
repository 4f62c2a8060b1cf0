-- ===== src/Services/Orgs/Demotion.antt =====
-- The role of a member under `addMember` of orgs/orgs.service.ts.
use ai_saas_multi_tenant.Base.{ℕ, ◌≡◌, ◌≢◌, inl, inr, some, arith, ◌==◌, Bool-cases}
use mathlib.Core.Path.{subst}
use ai_saas_multi_tenant.Prisma.{Prisma}
use ai_saas_multi_tenant.Prisma.Rows.{In, update_row, map-In}
use ai_saas_multi_tenant.Rbac.{Role, owner}
use ai_saas_multi_tenant.Model.Data.{RowId, User, Membership}
use ai_saas_multi_tenant.Model.World.{World}
use ai_saas_multi_tenant.Model.Platform.{External}
use ai_saas_multi_tenant.Model.Action.{Call, ok}
use ai_saas_multi_tenant.Services.Audit.{record_audit}
use ai_saas_multi_tenant.Services.Orgs.{
  is_membership, set_role, find_membership, added, add_user, add_member,
}
use ai_saas_multi_tenant.Services.Orgs.Owners.{members, IsOwnerOf, HasOwner}

-- No row that the update leaves is an owner's, if only the selected member was one.
demoted_row :
    (user org : RowId) (role : Role) (r o : Membership)
    → role ≢ owner
    → (IsOwnerOf org r → r.user_id ≡ user)
    → o ≡ update_row (is_membership user org) (set_role role) r
    → IsOwnerOf org o
    → ⊥
demoted_row user org role r o other sole e own = elim (Bool-cases (is_membership user org r)) [
  | inl hit ↦ other (ground arith)
  | inr miss ↦
      let same : o ≡ r = rw miss at e in
      absurd (ground (arith, sole (subst (IsOwnerOf org) same own)))
]

module _ (x : External) (c : Call) {db : Prisma} (org actor : RowId) (email : ℕ) (role : Role)
    (w : World db) (user : User) (m : Membership)
    (known : db.find_first (λ (u : User). u.email == x.lower_case email) w.users ≡ some user)
    (joined : find_membership user.id org w ≡ some m) where
  add_member-again :
      ((add_member x c org actor email role w).0 ≡ ok (added (set_role role m)))
      × ((add_member x c org actor email role w).1.memberships
          ≡ db.update_many (is_membership user.id org) (set_role role) w.memberships)
  unfolding add_member add_user record_audit
  add_member-again = (ground arith, ground arith)

  -- `addMember` with the e-mail address of the only owner of an organization, and a role that is not
  -- the owner's, succeeds, and leaves the organization without an owner.
  pub add_member-demotes :
      role ≢ owner
      → ((o : Membership) → In o (members db w) → IsOwnerOf org o → o.user_id ≡ user.id)
      → ((add_member x c org actor email role w).0 ≡ ok (added (set_role role m)))
        × (¬ HasOwner db org (add_member x c org actor email role w).1)
  add_member-demotes other sole = (
    add_member-again.0,
    λ has.
        let (o, in_o, own) = has in
        let (r, in_r, e) = map-In _ (members db w) (
          rw (db.rows-update_many _ _ w.memberships) at
            (subst (λ t. In o (db.rows t)) add_member-again.1 in_o)) in
        demoted_row user.id org role r o other (sole r in_r) e own,
  )
