-- ===== src/Api/Members.antt =====
-- Members and invites under the operations of orgs/orgs.service.ts.
use ai_saas_multi_tenant.Base.{
  ℕ, ◌≡◌, refl, ap, ◌⊎◌, inl, inr, Bool, true, Option, none, some, arith, ◌==◌, Option-cases,
  Bool-cases, ==_refl,
}
use ai_saas_multi_tenant.Prisma.{Prisma}
use ai_saas_multi_tenant.Prisma.Unique.{
  Once, create-Once, update_many-Once, delete_many-Once, not_found-excludes,
}
use ai_saas_multi_tenant.Rbac.{Role}
use ai_saas_multi_tenant.Model.Data.{RowId, User, Membership, Invite}
use ai_saas_multi_tenant.Model.World.{World}
use ai_saas_multi_tenant.Model.Platform.{External}
use ai_saas_multi_tenant.Model.Action.{Call}
use ai_saas_multi_tenant.Services.Audit.{record_audit}
use ai_saas_multi_tenant.Services.Orgs.{
  is_owner, is_membership, is_invite, is_stale, set_role, new_membership, find_membership,
  new_invite, renew_invite, update_member_role, remove_member, add_user, invite_address,
  add_or_invite, add_member, redeem, accept_invite,
}
use ai_saas_multi_tenant.Api.Facets.{member_key, invite_key, OrgsHealthy}

-- What an operation may have done to the memberships: it wrote roles, deleted rows, or added a row
-- of a user that was no member.
abbrev MembersWritten : (db : Prisma) → World db → World db → Type 0
MembersWritten db w v =
    (v.memberships ≡ w.memberships)
    ⊎ (((p : Membership → Bool) × (role : Role) × (v.memberships
            ≡ db.update_many p (set_role role) w.memberships))
        ⊎ (((p : Membership → Bool) × (v.memberships ≡ db.delete_many p w.memberships))
            ⊎ ((id : RowId) × (user : RowId) × (org : RowId) × (role : Role) × (find_membership user
                    org w
                  ≡ none)
                × (v.memberships ≡ db.create (new_membership id user org role) w.memberships))))

-- The same for the invites.
abbrev InvitesWritten : (db : Prisma) → World db → World db → Type 0
InvitesWritten db w v =
    (v.invites ≡ w.invites)
    ⊎ (((p : Invite → Bool) × (f : Invite → Invite) × ((i : Invite)
            → invite_key (f i) ≡ invite_key i)
          × (v.invites ≡ db.update_many p f w.invites))
        ⊎ ((new : Invite) × (db.find_first (is_invite new.organization_id new.email) w.invites
              ≡ none)
            × (v.invites ≡ db.create new w.invites)))

module _ {db : Prisma} (w v : World db) (h : OrgsHealthy db w) where
  written-members : MembersWritten db w v → Once member_key (db.rows v.memberships)
  written-members (inl same) = rw same h.members
  written-members (inr (inl (p, role, table))) =
      rw table
        (update_many-Once member_key db w.memberships h.members p (set_role role) (λ m. refl))
  written-members (inr (inr (inl (p, table)))) =
      rw table (delete_many-Once member_key db w.memberships h.members p)
  written-members (inr (inr (inr (id, user, org, role, missing, table)))) = rw table (
      create-Once member_key db w.memberships h.members (new_membership id user org role)
        (λ m stored same.
          not_found-excludes db (is_membership user org) w.memberships m missing stored
            (is_it m (ap (λ k. k.0) same) (ap (λ k. k.1) same))))
    where
      is_it :
          (m : Membership)
          → m.user_id ≡ user
          → m.organization_id ≡ org
          → is_membership user org m ≡ true
      is_it m e k = ground (arith, e, k, ==_refl user, ==_refl org)

  written-invites : InvitesWritten db w v → Once invite_key (db.rows v.invites)
  written-invites (inl same) = rw same h.invites
  written-invites (inr (inl (p, f, keep, table))) =
      rw table (update_many-Once invite_key db w.invites h.invites p f keep)
  written-invites (inr (inr (new, missing, table))) = rw table (
      create-Once invite_key db w.invites h.invites new (λ i stored same.
        not_found-excludes db (is_invite new.organization_id new.email) w.invites i missing stored
          (is_it i (ap (λ k. k.0) same) (ap (λ k. k.1) same))))
    where
      is_it :
          (i : Invite)
          → i.organization_id ≡ new.organization_id
          → i.email ≡ new.email
          → is_invite new.organization_id new.email i ≡ true
      is_it i e k = ground (arith, e, k, ==_refl new.organization_id, ==_refl new.email)

  pub written-OrgsHealthy :
      v.organizations ≡ w.organizations
      → v.subscriptions ≡ w.subscriptions
      → MembersWritten db w v
      → InvitesWritten db w v
      → OrgsHealthy db v
  written-OrgsHealthy organizations subscriptions members invites = record {
    slugs = rw organizations h.slugs;
    members = written-members members;
    invites = written-invites invites;
    subscriptions = rw subscriptions h.subscriptions;
  }

module _ {db : Prisma} (w : World db) (h : OrgsHealthy db w) (c : Call) where
  module _ (org actor target : RowId) where
    pub update_member_role-OrgsHealthy :
        (role : Role) → OrgsHealthy db (update_member_role c org actor target role w).1
    unfolding update_member_role record_audit
    update_member_role-OrgsHealthy role =
        written-OrgsHealthy w _ h (ground arith) (ground arith) written (inl (ground arith))
      where
        written : MembersWritten db w (update_member_role c org actor target role w).1
        written = elim (Option-cases (find_membership target org w)) [
          | inl missing ↦ inl (ground (arith, missing))
          | inr (m, found) ↦ elim (Bool-cases (is_owner m.role)) [
            | inl owned ↦ inl (ground (arith, found, owned))
            | inr free ↦ inr (inl ((λ r. r.id == m.id), role, ground (arith, found, free)))
          ]
        ]

    pub remove_member-OrgsHealthy : OrgsHealthy db (remove_member c org actor target w).1
    unfolding remove_member record_audit
    remove_member-OrgsHealthy =
        written-OrgsHealthy w _ h (ground arith) (ground arith) written (inl (ground arith))
      where
        written : MembersWritten db w (remove_member c org actor target w).1
        written = elim (Option-cases (find_membership target org w)) [
          | inl missing ↦ inl (ground (arith, missing))
          | inr (m, found) ↦ elim (Bool-cases (is_owner m.role)) [
            | inl owned ↦ inl (ground (arith, found, owned))
            | inr free ↦ inr (inr (inl ((λ r. r.id == m.id), ground (arith, found, free))))
          ]
        ]

  module _ (x : External) (org actor : RowId) (email : ℕ) (role : Role) where
    abbrev address : ℕ
    address = x.lower_case email

    abbrev account : Option User
    account = db.find_first (λ (u : User). u.email == address) w.users

    add_member-members : MembersWritten db w (add_member x c org actor email role w).1
    unfolding add_member add_or_invite add_user invite_address record_audit
    add_member-members = elim (Option-cases account) [
      | inl unknown ↦ inl (ground (arith, unknown))
      | inr (u, known) ↦ elim (Option-cases (find_membership u.id org w)) [
        | inl new ↦ inr (inr (inr (c.ids 0, u.id, org, role, new, ground (arith, known, new))))
        | inr (m, joined) ↦ inr (inl (is_membership u.id org, role, ground (arith, known, joined)))
      ]
    ]

    add_member-invites : InvitesWritten db w (add_member x c org actor email role w).1
    unfolding add_member add_or_invite add_user invite_address record_audit
    add_member-invites = elim (Option-cases account) [
      | inr (u, known) ↦ inl (ground (arith, known))
      | inl unknown ↦ elim (Option-cases (db.find_first (is_invite org address) w.invites)) [
        | inl new ↦
            inr (inr (new_invite x c org actor address role, new, ground (arith, unknown, new)))
        | inr (i, pending) ↦ inr (
            inl (
              is_invite org address,
              renew_invite x c actor role,
              (λ i. refl),
              ground (arith, unknown, pending),
            ))
      ]
    ]

    pub add_member-OrgsHealthy : OrgsHealthy db (add_member x c org actor email role w).1
    unfolding add_member add_or_invite add_user invite_address record_audit
    add_member-OrgsHealthy =
        written-OrgsHealthy w _ h (ground arith) (ground arith) add_member-members
          add_member-invites

  module _ (x : External) (user : RowId) (email token : ℕ) where
    abbrev presented : Option Invite
    presented = db.find_first (λ (i : Invite). i.token_hash == x.sha256 token) w.invites

    accept_invite-written :
        MembersWritten db w (accept_invite x c user email token w).1
        × InvitesWritten db w (accept_invite x c user email token w).1
    unfolding accept_invite redeem record_audit
    accept_invite-written = elim (Option-cases presented) [
      | inl missing ↦ (inl (ground (arith, missing)), inl (ground (arith, missing)))
      | inr (i, found) ↦ elim (Bool-cases (is_stale c.now i)) [
        | inl stale ↦ (inl (ground (arith, found, stale)), inl (ground (arith, found, stale)))
        | inr good ↦ elim (Bool-cases (x.lower_case i.email == x.lower_case email)) [
          | inr other ↦
              (inl (ground (arith, found, good, other)), inl (ground (arith, found, good, other)))
          | inl same ↦ (
            elim (Option-cases (find_membership user i.organization_id w)) [
              | inl new ↦ inr (
                  inr (
                    inr (
                      c.ids 0,
                      user,
                      i.organization_id,
                      i.role,
                      new,
                      ground (arith, found, good, same, new),
                    )))
              | inr (m, joined) ↦ inr (
                  inl (
                    is_membership user i.organization_id,
                    i.role,
                    ground (arith, found, good, same, joined),
                  ))
            ],
            inr (
                inl (
                  (λ j. j.id == i.id),
                  (λ j. record j { accepted_at = some c.now }),
                  (λ j. refl),
                  ground (arith, found, good, same),
                )),
          )
        ]
      ]
    ]

    pub accept_invite-OrgsHealthy : OrgsHealthy db (accept_invite x c user email token w).1
    unfolding accept_invite redeem record_audit
    accept_invite-OrgsHealthy =
        let (members, invites) = accept_invite-written in
        written-OrgsHealthy w _ h (ground arith) (ground arith) members invites
