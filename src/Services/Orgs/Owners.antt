-- ===== src/Services/Orgs/Owners.antt =====
-- The owners of an organization under `updateMemberRole` and `removeMember` of
-- orgs/orgs.service.ts.
use ai_saas_multi_tenant.Base.{
  ◌≡◌, inl, inr, true, false, none, some, List, map, arith, ◌==◌, Bool-cases, Option-cases, sym,
  ==_iff,
}
use mathlib.Core.Path.{subst}
use ai_saas_multi_tenant.Prisma.{Prisma}
use ai_saas_multi_tenant.Prisma.Rows.{In, In_remove, update_row, In_map}
use ai_saas_multi_tenant.Rbac.{Role, owner}
use ai_saas_multi_tenant.Model.Data.{RowId, Membership}
use ai_saas_multi_tenant.Model.World.{World}
use ai_saas_multi_tenant.Model.Action.{Call, ok, throw, forbidden, not_found}
use ai_saas_multi_tenant.Services.Audit.{record_audit}
use ai_saas_multi_tenant.Services.Orgs.{
  is_owner, is_membership, set_role, find_membership, update_member_role, remove_member,
}

abbrev pub IsOwnerOf : RowId → Membership → Type 0
IsOwnerOf org m = (m.organization_id ≡ org) × (m.role ≡ owner)

module _ (db : Prisma) where
  abbrev pub members : World db → List Membership
  members w = db.rows w.memberships

  abbrev pub HasOwner : RowId → World db → Type 0
  HasOwner org w = (m : Membership) × In m (members w) × IsOwnerOf org m

  -- `id` is the primary key.
  abbrev pub UniqueId : World db → Type 0
  UniqueId w = (m n : Membership) → In m (members w) → In n (members w) → m.id ≡ n.id → m ≡ n

module _ (c : Call) {db : Prisma} (org actor target : RowId) (w : World db) where
  update_member_role-missing :
      (role : Role)
      → find_membership target org w ≡ none
      → update_member_role c org actor target role w ≡ (throw not_found, w)
  unfolding update_member_role
  update_member_role-missing role missing = rw missing

  update_member_role-owner :
      (role : Role) (m : Membership)
      → find_membership target org w ≡ some m
      → is_owner m.role ≡ true
      → update_member_role c org actor target role w ≡ (throw forbidden, w)
  unfolding update_member_role
  update_member_role-owner role m found h = rw (found, h)

  update_member_role-good :
      (role : Role) (m : Membership)
      → find_membership target org w ≡ some m
      → is_owner m.role ≡ false
      → ((update_member_role c org actor target role w).0 ≡ ok (set_role role m))
        × ((update_member_role c org actor target role w).1.memberships
            ≡ db.update_many (λ r. r.id == m.id) (set_role role) w.memberships)
  unfolding update_member_role record_audit
  update_member_role-good role m found h = (rw (found, h), rw (found, h))

  remove_member-good :
      (m : Membership)
      → find_membership target org w ≡ some m
      → is_owner m.role ≡ false
      → ((remove_member c org actor target w).0 ≡ ok tt)
        × ((remove_member c org actor target w).1.memberships
            ≡ db.delete_many (λ r. r.id == m.id) w.memberships)
  unfolding remove_member record_audit
  remove_member-good m found h = (rw (found, h), rw (found, h))

  remove_member-missing :
      find_membership target org w ≡ none
      → remove_member c org actor target w ≡ (throw not_found, w)
  unfolding remove_member
  remove_member-missing missing = rw missing

  remove_member-owner :
      (m : Membership)
      → find_membership target org w ≡ some m
      → is_owner m.role ≡ true
      → remove_member c org actor target w ≡ (throw forbidden, w)
  unfolding remove_member
  remove_member-owner m found h = rw (found, h)

-- A row with another role than the owner's is another row than an owner's.
other_id :
    (db : Prisma) (w : World db) (m o : Membership)
    → UniqueId db w
    → In m (members db w)
    → In o (members db w)
    → is_owner m.role ≡ false
    → o.role ≡ owner
    → (o.id == m.id) ≡ false
other_id db w m o unique in_m in_o h own = elim (Bool-cases (o.id == m.id)) [
  | inr miss ↦ miss
  | inl hit ↦ let same : o ≡ m = unique o m in_o in_m ((==_iff _ _).0 hit) in absurd (ground arith)
]

module _ (c : Call) {db : Prisma} (org actor target : RowId) (w : World db) (unique : UniqueId db w)
    (own : HasOwner db org w) where
  abbrev found_In : {m : Membership} → find_membership target org w ≡ some m → In m (members db w)
  found_In found = (db.find_first-some (is_membership target org) w.memberships found).0

  -- An organization that has an owner still has one after `updateMemberRole`, on every branch of it,
  -- where the ids of memberships are unique.
  pub update_member_role-HasOwner :
      (role : Role) → HasOwner db org (update_member_role c org actor target role w).1
  update_member_role-HasOwner role = elim (Option-cases (find_membership target org w)) [
    | inl missing ↦ rw (update_member_role-missing c org actor target w role missing) own
    | inr (m, found) ↦ elim (Bool-cases (is_owner m.role)) [
      | inl h ↦ rw (update_member_role-owner c org actor target w role m found h) own
      | inr h ↦
          let (o, in_o, at_org) = own in
          let miss = other_id db w m o unique (found_In found) in_o h at_org.1 in
          let kept : update_row (λ r. r.id == m.id) (set_role role) o ≡ o = rw miss in
          (
            o,
            subst (λ t. In o (db.rows t))
                (sym (update_member_role-good c org actor target w role m found h).1)
                (rw (db.rows-update_many _ _ _) (
                  subst
                    (λ r.
                      In r (map (update_row (λ r. r.id == m.id) (set_role role)) (members db w)))
                    kept (In_map _ _ o in_o))),
            at_org,
          )
    ]
  ]

  -- An organization that has an owner still has one after `removeMember`, on every branch of it, where
  -- the ids of memberships are unique.
  pub remove_member-HasOwner : HasOwner db org (remove_member c org actor target w).1
  remove_member-HasOwner = elim (Option-cases (find_membership target org w)) [
    | inl missing ↦ rw (remove_member-missing c org actor target w missing) own
    | inr (m, found) ↦ elim (Bool-cases (is_owner m.role)) [
      | inl h ↦ rw (remove_member-owner c org actor target w m found h) own
      | inr h ↦
          let (o, in_o, at_org) = own in
          (
            o,
            subst (λ t. In o (db.rows t))
                (sym (remove_member-good c org actor target w m found h).1)
                (rw (db.rows-delete_many _ _) (
                  In_remove _ _ o in_o
                    (other_id db w m o unique (found_In found) in_o h at_org.1))),
            at_org,
          )
    ]
  ]
