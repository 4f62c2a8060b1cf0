-- ===== src/Auth/Replay.antt =====
-- A token that is presented again after `rotate` of auth/token.service.ts.
use ai_saas_multi_tenant.Base.{
  ℕ, ◌≡◌, refl, ◌≢◌, inl, inr, Bool, true, false, none, some, arith, ◌==◌, Option-cases, sym, ◌∙◌,
  ap, ==_refl, ==_iff,
}
use mathlib.Core.Path.{subst}
use ai_saas_multi_tenant.Prisma.{Prisma}
use ai_saas_multi_tenant.Prisma.Rows.{
  In, update_row, map-In, append-In, In_append, In_append_last, In_map, All_lookup,
}
use ai_saas_multi_tenant.Model.Data.{Time, User, DeviceInfo, RefreshToken}
use ai_saas_multi_tenant.Model.World.{World}
use ai_saas_multi_tenant.Model.Platform.{External, Env}
use ai_saas_multi_tenant.Model.Action.{Call, ok, throw, unauthorized}
use ai_saas_multi_tenant.Auth.Tokens.{
  IssuedTokens, set_revoked, is_spent, hash, new_token, find_token, revoke_one, exchange, rotate,
}
use ai_saas_multi_tenant.Auth.Families.{tokens, IsDead}
use ai_saas_multi_tenant.Auth.Rotation.{owner_of, rotate-good, rotate_reuse}

-- `tokenHash` is unique.
abbrev pub UniqueHash : (db : Prisma) → World db → Type 0
UniqueHash db w =
    (s t : RefreshToken)
    → In s (tokens db w)
    → In t (tokens db w)
    → s.token_hash ≡ t.token_hash
    → s ≡ t

-- What is left of the exchanged token under its hash.
abbrev IsRemnant : RefreshToken → RefreshToken → Type 0
IsRemnant existing t =
    (t.revoked_at ≢ none) × (t.family_id ≡ existing.family_id) × (t.user_id ≡ existing.user_id)

IsRemnant-of_update :
    (now : Time) (existing t : RefreshToken)
    → t ≡ update_row (λ u. u.id == existing.id) (set_revoked now) existing
    → IsRemnant existing t
IsRemnant-of_update now existing t e = ground (arith, ==_refl existing.id)

pub update_row-token_hash :
    (now : Time) (p : RefreshToken → Bool) (r : RefreshToken)
    → (update_row p (set_revoked now) r).token_hash ≡ r.token_hash
update_row-token_hash now p r = ground arith

spent_of_revoked : (now : Time) (t : RefreshToken) → t.revoked_at ≢ none → is_spent now t ≡ true
spent_of_revoked now t h = ground arith

module _ (x : External) (env : Env) (c : Call) {db : Prisma} (presented : ℕ) (device : DeviceInfo)
    (w : World db) (existing : RefreshToken) (user : User)
    (found : find_token x env c presented w ≡ some existing) (unique : UniqueHash db w)
    (fresh : hash x c.random ≢ hash x presented) where
  abbrev after : World db
  after = (exchange x env c existing user device w).1

  abbrev selected : RefreshToken → Bool
  selected t = t.id == existing.id

  existing_found : In existing (tokens db w) × (existing.token_hash ≡ hash x presented)
  existing_found =
      let (m, h) =
        db.find_first-some (λ t. t.token_hash == hash x presented) w.refresh_tokens found in
      (m, (==_iff _ _).0 h)

  after_In :
      (t : RefreshToken)
      → In t (tokens db after)
      → t.token_hash ≡ hash x presented
      → IsRemnant existing t
  unfolding exchange
  after_In t m h =
      let new =
        new_token x env c (record { sub = user.id; email = user.email }) existing.family_id
          device in
      elim (append-In (tokens db (revoke_one x env c existing.id w))
        (rw (db.rows-create new (revoke_one x env c existing.id w).refresh_tokens) at m)) [
          | inr is_new ↦ absurd (fresh (sym (ap (λ (r : RefreshToken). r.token_hash) is_new) ∙ h))
          | inl old ↦
              let (r, n, e) =
                map-In _ (tokens db w)
                  (rw (db.rows-update_many selected (set_revoked c.now) w.refresh_tokens) at old) in
              let hash_r : r.token_hash ≡ hash x presented =
                sym (update_row-token_hash c.now selected r)
                ∙ sym (ap (λ (r : RefreshToken). r.token_hash) e)
                ∙ h in
              let same : r ≡ existing =
                unique r existing n existing_found.0 (hash_r ∙ sym existing_found.1) in
              IsRemnant-of_update c.now existing t
                (subst (λ u. t ≡ update_row selected (set_revoked c.now) u) same e)
        ]

  -- The row that was exchanged is still there.
  remnant_In : In (update_row selected (set_revoked c.now) existing) (tokens db after)
  unfolding exchange
  remnant_In =
      rw
        (db.rows-create
          (new_token x env c (record { sub = user.id; email = user.email }) existing.family_id
            device)
          _)
        (In_append _ _ _ (
          rw (db.rows-update_many selected (set_revoked c.now) w.refresh_tokens)
            (In_map _ (tokens db w) existing existing_found.0)))

  -- A second presentation of the token that was exchanged, by any later call, is refused, and it
  -- revokes the family, the successor included.
  replay :
      (c' : Call) (device' : DeviceInfo)
      → owner_of x env c' presented device' after existing ≡ some user
      → ((rotate x env c' presented device' after).0 ≡ throw unauthorized)
        × IsDead db existing.family_id (rotate x env c' presented device' after).1
  replay c' device' owned = elim (Option-cases (find_token x env c' presented after)) [
    | inl missing ↦
        let hidden =
          All_lookup _ (tokens db after) (db.find_first-none _ after.refresh_tokens missing)
            remnant_In in
        absurd (ground (arith, update_row-token_hash c.now selected existing, existing_found.1))
    | inr (t, again) ↦
        let (m, h) =
          db.find_first-some (λ t. t.token_hash == hash x presented) after.refresh_tokens again in
        let (revoked, family, owner) = after_In t m ((==_iff _ _).0 h) in
        subst
          (λ f.
            ((rotate x env c' presented device' after).0 ≡ throw unauthorized)
            × IsDead db f (rotate x env c' presented device' after).1)
          family
          (rotate_reuse x env c' presented device' after t user again (rw owner owned)
            (spent_of_revoked c'.now t revoked))
  ]

-- A presented refresh token that is known, not revoked and not expired is exchanged for a new pair,
-- whose row, in the same family, is stored and active. If the new random secret has another hash and
-- stored hashes are unique, then the same token presented once more, at any later time, is refused,
-- and that revokes the whole family, the successor included.
pub rotate_once :
    (x : External) (env : Env) (c : Call) {db : Prisma} (presented : ℕ) (device : DeviceInfo)
    (w : World db) (existing : RefreshToken) (user : User) (c' : Call) (device' : DeviceInfo)
    → find_token x env c presented w ≡ some existing
    → db.find_first (λ (u : User). u.id == existing.user_id) w.users ≡ some user
    → is_spent c.now existing ≡ false
    → UniqueHash db w
    → hash x c.random ≢ hash x presented
    → let w' = (rotate x env c presented device w).1 in
      let successor =
        new_token x env c
          (record { sub = user.id; email = user.email })
          existing.family_id
          device in
      ((issued : IssuedTokens) × ((rotate x env c presented device w).0 ≡ ok issued)
        × (issued.refresh_token ≡ c.random))
      × In successor (tokens db w')
      × ((rotate x env c' presented device' w').0 ≡ throw unauthorized)
      × IsDead db existing.family_id (rotate x env c' presented device' w').1
unfolding exchange
rotate_once x env c {db} presented device w existing user c' device' found owned good unique fresh =
    let (refused, dead) =
      replay x env c presented device w existing user found unique fresh c' device' owned in
    rw (rotate-good x env c presented device w existing user found owned good)
      ((_, refl, refl), rw (db.rows-create _ _) (In_append_last _ _), refused, dead)
