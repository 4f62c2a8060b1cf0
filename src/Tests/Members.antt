-- ===== src/Tests/Members.antt =====
-- The theorems on members and invites at the fixture.
use ai_saas_multi_tenant.Base.{
  ◌≤◌, ◌≡◌, ◌≢◌, refl, sym, ap, ◌∙◌, ◌⊎◌, inl, inr, none, some, [], ◌∷◌, arith,
}
use ai_saas_multi_tenant.Prisma.Memory.{memory}
use ai_saas_multi_tenant.Prisma.Rows.{In}
use ai_saas_multi_tenant.Rbac.{owner, guest}
use ai_saas_multi_tenant.Model.Data.{Membership, Invite}
use ai_saas_multi_tenant.Model.World.{World}
use ai_saas_multi_tenant.Model.Action.{Exception, ok, throw, bad_request}
use ai_saas_multi_tenant.Services.Orgs.{
  update_member_role, remove_member, add_member, added, set_role, accept_invite,
}
use ai_saas_multi_tenant.Services.Orgs.Owners.{
  members, IsOwnerOf, HasOwner, UniqueId, update_member_role-HasOwner, remove_member-HasOwner,
}
use ai_saas_multi_tenant.Services.Orgs.Demotion.{add_member-demotes}
use ai_saas_multi_tenant.Services.Orgs.Invites.{
  find_invite, Accepted, UniqueInvite, accept_invite_lem, accept_invite_once,
}
use ai_saas_multi_tenant.Tests.Fixture.{external, call, later, ada, invite, owner_row, world}

world-UniqueId : UniqueId memory world
world-UniqueId p q (inl e) (inl f) same = e ∙ sym f
world-UniqueId p q (inr (inl e)) (inr (inl f)) same = e ∙ sym f
world-UniqueId p q (inl e) (inr (inl f)) same =
    absurd (omega (arith, ap (λ (m : Membership). m.id) e, ap (λ (m : Membership). m.id) f, same))
world-UniqueId p q (inr (inl e)) (inl f) same =
    absurd (omega (arith, ap (λ (m : Membership). m.id) e, ap (λ (m : Membership). m.id) f, same))
world-UniqueId p q (inr (inr m)) n same = absurd m
world-UniqueId p q (inl e) (inr (inr m)) same = absurd m
world-UniqueId p q (inr (inl e)) (inr (inr m)) same = absurd m

world-HasOwner : HasOwner memory 4 world
world-HasOwner = (owner_row, inl refl, (refl, refl))

update_member_role_example : HasOwner memory 4 (update_member_role call 4 1 2 guest world).1
update_member_role_example =
    update_member_role-HasOwner call 4 1 2 world world-UniqueId world-HasOwner guest

remove_member_example : HasOwner memory 4 (remove_member call 4 1 2 world).1
remove_member_example = remove_member-HasOwner call 4 1 2 world world-UniqueId world-HasOwner

abbrev single : World memory
single = record world { memberships = owner_row ∷ [] }

single_owner : (o : Membership) → In o (members memory single) → IsOwnerOf 4 o → o.user_id ≡ 1
single_owner o (inl e) own = ap (λ (m : Membership). m.user_id) e
single_owner o (inr m) own = absurd m

guest_is_not_owner : guest ≢ owner
guest_is_not_owner e = cc

demotes_example :
    ((add_member external call 4 2 11 guest single).0 ≡ ok (added (set_role guest owner_row)))
    × (¬ HasOwner memory 4 (add_member external call 4 2 11 guest single).1)
demotes_example =
    add_member-demotes external call 4 2 11 guest single ada owner_row refl refl guest_is_not_owner
      single_owner

world-UniqueInvite : UniqueInvite memory world
world-UniqueInvite i j (inl e) (inl f) same = e ∙ sym f
world-UniqueInvite i j (inl e) (inr m) same = absurd m
world-UniqueInvite i j (inr m) n same = absurd m

accept_invite_example :
    ((e : Exception) × (accept_invite external call 3 13 6 world ≡ (throw e, world)))
    ⊎ ((i : Invite) × (find_invite external call 3 13 6 world ≡ some i)
        × (i.accepted_at ≡ none)
        × (100 ≤ i.expires_at)
        × (external.lower_case i.email ≡ external.lower_case 13)
        × Accepted external call 3 13 6 world i)
accept_invite_example = accept_invite_lem external call 3 13 6 world

accept_again_example :
    accept_invite external later 5 14 6 (accept_invite external call 3 13 6 world).1
    ≡ (throw bad_request, (accept_invite external call 3 13 6 world).1)
accept_again_example =
    accept_invite_once external call 3 13 6 world invite refl refl refl world-UniqueInvite later 5
      14
