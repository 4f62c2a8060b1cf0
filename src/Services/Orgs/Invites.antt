-- ===== src/Services/Orgs/Invites.antt =====
-- Accepting an invite: `acceptInvite` of orgs/orgs.service.ts.
use ai_saas_multi_tenant.Base.{
  ℕ, ◌≤◌, ◌≡◌, refl, ◌⊎◌, inl, inr, Bool, true, false, Option, none, some, arith, ◌==◌, Bool-cases,
  Option-cases, sym, ◌∙◌, ap, ==_iff, ==_refl,
}
use mathlib.Core.Path.{subst}
use ai_saas_multi_tenant.Prisma.{Prisma}
use ai_saas_multi_tenant.Prisma.Rows.{In, update_row, map-In, In_map, In_append_last}
use ai_saas_multi_tenant.Model.Data.{RowId, Time, Membership, Invite}
use ai_saas_multi_tenant.Model.World.{World}
use ai_saas_multi_tenant.Model.Platform.{External}
use ai_saas_multi_tenant.Model.Action.{Call, Exception, ok, throw, bad_request, forbidden}
use ai_saas_multi_tenant.Services.Audit.{record_audit}
use ai_saas_multi_tenant.Services.Orgs.{
  is_membership, is_stale, set_role, new_membership, find_membership, accept_invite,
}

module _ (x : External) (c : Call) {db : Prisma} (user : RowId) (email token : ℕ)
    (w : World db) where
  abbrev pub find_invite : Option Invite
  find_invite = db.find_first (λ (i : Invite). i.token_hash == x.sha256 token) w.invites

  accept_invite-missing :
      find_invite ≡ none → accept_invite x c user email token w ≡ (throw bad_request, w)
  unfolding accept_invite
  accept_invite-missing missing = rw missing

  module _ (i : Invite) where
    -- What an acceptance writes: the membership, in the role of the invite, and the invite, burnt.
    abbrev pub Accepted : Type 0
    Accepted =
        let w' = (accept_invite x c user email token w).1 in
        ((m : Membership) × ((accept_invite x c user email token w).0 ≡ ok m) × (m.role ≡ i.role))
        × ((n : Membership) × In n (db.rows w'.memberships)
            × (is_membership user i.organization_id n ≡ true)
            × (n.role ≡ i.role))
        × (w'.invites
            ≡ db.update_many (λ j. j.id == i.id) (λ j. record j { accepted_at = some c.now })
                w.invites)

    joins :
        (old : Membership)
        → find_membership user i.organization_id w ≡ some old
        → In (set_role i.role old) (
            db.rows (
              db.update_many
                (is_membership user i.organization_id)
                (set_role i.role)
                w.memberships))
    joins old joined =
        let (m, hit) =
          db.find_first-some (is_membership user i.organization_id) w.memberships joined in
        let same : update_row (is_membership user i.organization_id) (set_role i.role) old
            ≡ set_role i.role old =
          rw hit in
        rw (db.rows-update_many _ _ _) (rw (← same) (In_map _ _ old m))

  module _ (i : Invite) (found : find_invite ≡ some i) where
    accept_invite-stale :
        is_stale c.now i ≡ true → accept_invite x c user email token w ≡ (throw bad_request, w)
    unfolding accept_invite
    accept_invite-stale stale = rw (found, stale)

    accept_invite-other :
        is_stale c.now i ≡ false
        → (x.lower_case i.email == x.lower_case email) ≡ false
        → accept_invite x c user email token w ≡ (throw forbidden, w)
    unfolding accept_invite
    accept_invite-other good other = rw (found, good, other)

    module _ (good : is_stale c.now i ≡ false)
        (same : (x.lower_case i.email == x.lower_case email) ≡ true) where
      accept_invite-new :
          find_membership user i.organization_id w ≡ none
          → let m = new_membership (c.ids 0) user i.organization_id i.role in
            let w' = (accept_invite x c user email token w).1 in
            ((accept_invite x c user email token w).0 ≡ ok m)
            × (w'.memberships ≡ db.create m w.memberships)
            × (w'.invites
                ≡ db.update_many
                    (λ j. j.id == i.id)
                    (λ j. record j { accepted_at = some c.now })
                    w.invites)
      unfolding accept_invite record_audit
      accept_invite-new new = (ground arith, ground arith, ground arith)

      accept_invite-joined :
          (old : Membership)
          → find_membership user i.organization_id w ≡ some old
          → let w' = (accept_invite x c user email token w).1 in
            ((accept_invite x c user email token w).0 ≡ ok (set_role i.role old))
            × (w'.memberships
                ≡ db.update_many
                    (is_membership user i.organization_id)
                    (set_role i.role)
                    w.memberships)
            × (w'.invites
                ≡ db.update_many
                    (λ j. j.id == i.id)
                    (λ j. record j { accepted_at = some c.now })
                    w.invites)
      unfolding accept_invite record_audit
      accept_invite-joined old joined = (ground arith, ground arith, ground arith)

      accept_invite-good : Accepted i
      accept_invite-good = elim (Option-cases (find_membership user i.organization_id w)) [
        | inl new ↦
            let m = new_membership (c.ids 0) user i.organization_id i.role in
            let (result, table, burnt) = accept_invite-new new in
            (
              (m, result, refl),
              (
                m,
                subst (λ t. In m (db.rows t)) (sym table)
                    (rw (db.rows-create m w.memberships) (In_append_last _ m)),
                ground (arith, ==_refl user, ==_refl i.organization_id),
                refl,
              ),
              burnt,
            )
        | inr (old, joined) ↦
            let (result, table, burnt) = accept_invite-joined old joined in
            let (_, hit) =
              db.find_first-some (is_membership user i.organization_id) w.memberships joined in
            (
              (set_role i.role old, result, refl),
              (
                set_role i.role old,
                subst (λ t. In (set_role i.role old) (db.rows t)) (sym table) (joins i old joined),
                hit,
                refl,
              ),
              burnt,
            )
      ]

  -- `acceptInvite` either throws and changes nothing, or the token is that of a stored invite that is
  -- not accepted, has not expired and was issued to the caller's address up to case: then the caller
  -- is a member of the invite's organization in the invite's role, and the invite is marked accepted.
  pub accept_invite_lem :
      ((e : Exception) × (accept_invite x c user email token w ≡ (throw e, w)))
      ⊎ ((i : Invite) × (find_invite ≡ some i)
          × (i.accepted_at ≡ none)
          × (c.now ≤ i.expires_at)
          × (x.lower_case i.email ≡ x.lower_case email)
          × Accepted i)
  accept_invite_lem = elim (Option-cases find_invite) [
    | inl missing ↦ inl (bad_request, accept_invite-missing missing)
    | inr (i, found) ↦ elim (Bool-cases (is_stale c.now i)) [
      | inl stale ↦ inl (bad_request, accept_invite-stale i found stale)
      | inr good ↦ elim (Bool-cases (x.lower_case i.email == x.lower_case email)) [
        | inr other ↦ inl (forbidden, accept_invite-other i found good other)
        | inl same ↦ inr (
          i,
          found,
          ground arith,
          ground arith,
          (==_iff _ _).0 same,
          accept_invite-good i found good same,
        )
      ]
    ]
  ]

-- `tokenHash` is unique among the invites.
abbrev pub UniqueInvite : (db : Prisma) → World db → Type 0
UniqueInvite db w =
    (i j : Invite)
    → In i (db.rows w.invites)
    → In j (db.rows w.invites)
    → i.token_hash ≡ j.token_hash
    → i ≡ j

abbrev burn : Time → Invite → Invite
burn now j = record j { accepted_at = some now }

update_row-token_hash :
    (now : Time) (p : Invite → Bool) (r : Invite)
    → (update_row p (burn now) r).token_hash ≡ r.token_hash
update_row-token_hash now p r = ground arith

burnt_row :
    (now later : Time) (i j : Invite)
    → j ≡ update_row (λ k. k.id == i.id) (burn now) i
    → is_stale later j ≡ true
burnt_row now later i j e = ground (arith, ==_refl i.id)

-- Where the hashes of stored invites are unique: in the state that the acceptance of an invite token
-- leaves, a second presentation of the token, by any user and at any time of the clock, is refused, and
-- the refusal changes nothing.
pub accept_invite_once :
    (x : External) (c : Call) {db : Prisma} (user : RowId) (email token : ℕ) (w : World db)
    (i : Invite)
    → find_invite x c user email token w ≡ some i
    → is_stale c.now i ≡ false
    → x.lower_case i.email ≡ x.lower_case email
    → UniqueInvite db w
    → (c' : Call) (user' : RowId) (email' : ℕ)
    → let w' = (accept_invite x c user email token w).1 in
      accept_invite x c' user' email' token w' ≡ (throw bad_request, w')
accept_invite_once x c {db} user email token w i found good same unique c' user' email' =
    let w' = (accept_invite x c user email token w).1 in
    let accepted = accept_invite-good x c user email token w i found good ((==_iff _ _).1 same) in
    let (in_i, hash_i) =
      db.find_first-some (λ (i : Invite). i.token_hash == x.sha256 token) w.invites found in
    elim (Option-cases (find_invite x c' user' email' token w')) [
      | inl missing ↦ accept_invite-missing x c' user' email' token w' missing
      | inr (j, again) ↦
          let (in_j, hash_j) =
            db.find_first-some (λ (i : Invite). i.token_hash == x.sha256 token) w'.invites again in
          let (r, in_r, e) =
            map-In (update_row (λ k. k.id == i.id) (burn c.now)) (db.rows w.invites) (
              rw (db.rows-update_many (λ k. k.id == i.id) (burn c.now) w.invites) at
                (subst (λ t. In j (db.rows t)) accepted.2 in_j)) in
          let hash_r : r.token_hash ≡ i.token_hash =
            sym (update_row-token_hash c.now (λ k. k.id == i.id) r)
            ∙ sym (ap (λ (k : Invite). k.token_hash) e)
            ∙ (==_iff _ _).0 hash_j
            ∙ sym ((==_iff _ _).0 hash_i) in
          let is_i : r ≡ i = unique r i in_r in_i hash_r in
          accept_invite-stale x c' user' email' token w' j again (
            burnt_row c.now c'.now i j
              (subst (λ k. j ≡ update_row (λ k. k.id == i.id) (burn c.now) k) is_i e))
    ]
