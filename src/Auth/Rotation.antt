-- ===== src/Auth/Rotation.antt =====
-- `rotate` and `revoke` of auth/token.service.ts, on the family of a token.
use ai_saas_multi_tenant.Base.{
  ℕ, ◌≡◌, refl, ◌⊎◌, inl, inr, true, false, Option, none, some, ◌==◌, Bool-cases, Option-cases,
}
use ai_saas_multi_tenant.Prisma.{Prisma}
use ai_saas_multi_tenant.Prisma.Rows.{In}
use ai_saas_multi_tenant.Model.Data.{User, DeviceInfo, RefreshToken}
use ai_saas_multi_tenant.Model.World.{World}
use ai_saas_multi_tenant.Model.Platform.{External, Env}
use ai_saas_multi_tenant.Model.Action.{Call, ok, throw, unauthorized, record_missing}
use ai_saas_multi_tenant.Auth.Tokens.{
  active_in, is_spent, find_token, revoke_family, revoke_one, exchange, rotate, revoke,
}
use ai_saas_multi_tenant.Auth.Families.{
  tokens, IsDead, OneActive, unspent, revoke_family-IsDead, update-OneActive, revoke_one-IsDead,
  create_refresh-OneActive,
}

module _ (x : External) (env : Env) (c : Call) {db : Prisma} where
  -- The branches of `rotate`.
  module _ (presented : ℕ) (device : DeviceInfo) (w : World db) where
    abbrev pub owner_of : RefreshToken → Option User
    owner_of t = db.find_first (λ (u : User). u.id == t.user_id) w.users

    pub rotate-missing :
        find_token x env c presented w ≡ none
        → rotate x env c presented device w ≡ (throw unauthorized, w)
    unfolding rotate
    rotate-missing missing = rw missing

    pub rotate-no_owner :
        (existing : RefreshToken)
        → find_token x env c presented w ≡ some existing
        → owner_of existing ≡ none
        → rotate x env c presented device w ≡ (throw record_missing, w)
    unfolding rotate
    rotate-no_owner existing found gone = rw (found, gone)

    pub rotate-spent :
        (existing : RefreshToken) (user : User)
        → find_token x env c presented w ≡ some existing
        → owner_of existing ≡ some user
        → is_spent c.now existing ≡ true
        → rotate x env c presented device w
          ≡ (throw unauthorized, revoke_family x env c existing.family_id w)
    unfolding rotate
    rotate-spent existing user found owned spent = rw (found, owned, spent)

    pub rotate-good :
        (existing : RefreshToken) (user : User)
        → find_token x env c presented w ≡ some existing
        → owner_of existing ≡ some user
        → is_spent c.now existing ≡ false
        → rotate x env c presented device w ≡ exchange x env c existing user device w
    unfolding rotate
    rotate-good existing user found owned good = rw (found, owned, good)

  exchange-OneActive :
      (existing : RefreshToken) (user : User) (device : DeviceInfo) (w : World db)
      → OneActive db w
      → In existing (tokens db w)
      → existing.revoked_at ≡ none
      → OneActive db (exchange x env c existing user device w).1
  unfolding exchange
  exchange-OneActive existing user device w h m active =
      create_refresh-OneActive x env c (record { sub = user.id; email = user.email })
        existing.family_id device (revoke_one x env c existing.id w)
        (update-OneActive x env c (λ t. t.id == existing.id) w h)
        (revoke_one-IsDead x env c existing w h m active)

  -- Rotation keeps the invariant that a family has at most one token that is not revoked, whether
  -- it succeeds or throws.
  pub rotate-OneActive :
      (presented : ℕ) (device : DeviceInfo) (w : World db)
      → OneActive db w
      → OneActive db (rotate x env c presented device w).1
  rotate-OneActive presented device w h = elim (Option-cases (find_token x env c presented w)) [
    | inl missing ↦ rw (rotate-missing presented device w missing) h
    | inr (existing, found) ↦ elim (Option-cases (owner_of presented device w existing)) [
      | inl gone ↦ rw (rotate-no_owner presented device w existing found gone) h
      | inr (user, owned) ↦ elim (Bool-cases (is_spent c.now existing)) [
        | inl spent ↦
            rw (rotate-spent presented device w existing user found owned spent)
              (update-OneActive x env c (active_in existing.family_id) w h)
        | inr good ↦ rw (rotate-good presented device w existing user found owned good) (
            exchange-OneActive existing user device w h
              (db.find_first-some _ w.refresh_tokens found).0 (unspent c.now existing good))
      ]
    ]
  ]

  -- A refresh token that was revoked or has expired is refused when it is presented, and the whole
  -- family is revoked: afterwards no token of the family is active.
  pub rotate_reuse :
      (presented : ℕ) (device : DeviceInfo) (w : World db) (existing : RefreshToken) (user : User)
      → find_token x env c presented w ≡ some existing
      → db.find_first (λ (u : User). u.id == existing.user_id) w.users ≡ some user
      → is_spent c.now existing ≡ true
      → ((rotate x env c presented device w).0 ≡ throw unauthorized)
        × IsDead db existing.family_id (rotate x env c presented device w).1
  rotate_reuse presented device w existing user found owned spent =
      rw (rotate-spent presented device w existing user found owned spent)
        (refl, revoke_family-IsDead x env c existing.family_id w)

  -- Logging out revokes the family of the token that is presented, if it is known, and keeps the
  -- invariant; of an unknown token it changes nothing.
  pub revoke_lem :
      (presented : ℕ) (w : World db)
      → ((find_token x env c presented w ≡ none) × (revoke x env c presented w ≡ (ok tt, w)))
        ⊎ ((t : RefreshToken) × (find_token x env c presented w ≡ some t)
            × ((revoke x env c presented w).0 ≡ ok tt)
            × IsDead db t.family_id (revoke x env c presented w).1)
  unfolding revoke
  revoke_lem presented w = elim (Option-cases (find_token x env c presented w)) [
    | inl missing ↦ inl (missing, rw (missing, revoke))
    | inr (t, found) ↦ inr (
      t,
      found,
      rw (found, revoke),
      rw (found, revoke) (revoke_family-IsDead x env c t.family_id w),
    )
  ]
