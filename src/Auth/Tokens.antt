-- ===== src/Auth/Tokens.antt =====
-- Rotating refresh tokens: apps/api/src/modules/auth/token.service.ts.
use ai_saas_multi_tenant.Base.{
  ℕ, ◌+◌, ◌*◌, Bool, true, false, ◌||◌, Option, none, some, ltb, ◌==◌, if◌then◌else◌,
}
use ai_saas_multi_tenant.Prisma.{Prisma}
use ai_saas_multi_tenant.Model.Data.{RowId, Time, User, DeviceInfo, RefreshToken}
use ai_saas_multi_tenant.Model.World.{World}
use ai_saas_multi_tenant.Model.Platform.{External, Env}
use ai_saas_multi_tenant.Model.Action.{
  Action, Call, unauthorized, record_missing, pure, raise, gets, or_throw, modify, ◌>>=◌, ◌>>◌,
}

pub record AuthUser : Type 0 where
  pub sub : RowId
  pub email : ℕ

pub record IssuedTokens : Type 0 where
  pub access_token : ℕ
  pub refresh_token : ℕ
  pub refresh_expires_at : Time

abbrev pub is_set {ℓ} : {A : Type ℓ} → Option A → Bool
is_set none = false
is_set (some _) = true

-- `where: { familyId, revokedAt: null }`
abbrev pub active_in : RowId → RefreshToken → Bool
active_in family t = elim t.revoked_at [ none ↦ t.family_id == family | some _ ↦ false ]

abbrev pub set_revoked : Time → RefreshToken → RefreshToken
set_revoked now t = record t { revoked_at = some now }

-- `existing.revokedAt || existing.expiresAt < new Date()`
abbrev pub is_spent : Time → RefreshToken → Bool
is_spent now t = is_set t.revoked_at || ltb t.expires_at now

unfoldable pub hash : External → ℕ → ℕ
hash x token = x.sha256 token

module _ (x : External) (env : Env) (c : Call) where
  unfoldable pub sign_access : AuthUser → ℕ
  sign_access user = x.jwt_sign user.sub user.email env.jwt_access_secret env.jwt_access_ttl

  abbrev pub new_token : AuthUser → RowId → DeviceInfo → RefreshToken
  new_token user family device = record {
    id = c.ids 0;
    user_id = user.sub;
    token_hash = hash x c.random;
    family_id = family;
    expires_at = c.now + env.jwt_refresh_ttl * 1000;
    revoked_at = none;
    device = device;
  }

  module _ {db : Prisma} where
    -- `findUnique({ where: { tokenHash } })`
    abbrev pub find_token : ℕ → World db → Option RefreshToken
    find_token presented w = db.find_first (λ t. t.token_hash == hash x presented) w.refresh_tokens

    abbrev pub revoke_family : RowId → World db → World db
    revoke_family family w = record w {
      refresh_tokens = db.update_many (active_in family) (set_revoked c.now) w.refresh_tokens;
    }

    abbrev pub revoke_one : RowId → World db → World db
    revoke_one id w = record w {
      refresh_tokens = db.update_many (λ t. t.id == id) (set_revoked c.now) w.refresh_tokens;
    }

    unfoldable pub create_refresh : AuthUser → RowId → DeviceInfo → Action db IssuedTokens
    create_refresh user family device = do
      modify (λ w. record w {
        refresh_tokens = db.create (new_token user family device) w.refresh_tokens;
      })
      pure (record {
        access_token = sign_access user;
        refresh_token = c.random;
        refresh_expires_at = c.now + env.jwt_refresh_ttl * 1000;
      })

    -- `nanoid()` is the call's second fresh identifier.
    unfoldable pub issue_for_user : AuthUser → DeviceInfo → Action db IssuedTokens
    unfolding create_refresh
    issue_for_user user device = create_refresh user (c.ids 1) device

    -- The part of `rotate` behind the checks, on the token that was found and its owner.
    unfoldable pub exchange : RefreshToken → User → DeviceInfo → Action db IssuedTokens
    unfolding create_refresh
    exchange existing user device = do
      modify (revoke_one existing.id)
      create_refresh (record { sub = user.id; email = user.email }) existing.family_id device

    unfoldable pub reject_reuse : RefreshToken → Action db IssuedTokens
    reject_reuse existing = do modify (revoke_family existing.family_id); raise unauthorized

    -- The relation `user` is read with the token; its foreign key makes it present.
    unfoldable pub rotate : ℕ → DeviceInfo → Action db IssuedTokens
    unfolding exchange reject_reuse
    rotate presented device = do
      existing ← or_throw unauthorized (← gets (find_token presented))
      user ←
          or_throw record_missing
            (← gets (λ w. db.find_first (λ (u : User). u.id == existing.user_id) w.users))
      if is_spent c.now existing then reject_reuse existing else exchange existing user device

    unfoldable pub revoke : ℕ → Action db (Unit {0})
    revoke presented w = elim (find_token presented w) [
      | none ↦ (pure tt w)
      | some existing ↦ modify (revoke_family existing.family_id) w
    ]
