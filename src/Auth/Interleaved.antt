-- ===== src/Auth/Interleaved.antt =====
-- `rotate` of auth/token.service.ts call by call: each `await` of the database client lets another
-- request run. No transaction spans the calls.
pub mod Overlap
use ai_saas_multi_tenant.Base.{
  ℕ, Bool, true, false, Option, none, some, List, [], ◌∷◌, ◌==◌, if◌then◌else◌,
}
use ai_saas_multi_tenant.Prisma.{Prisma}
use ai_saas_multi_tenant.Model.Data.{User, DeviceInfo, RefreshToken}
use ai_saas_multi_tenant.Model.World.{World}
use ai_saas_multi_tenant.Model.Platform.{External, Env}
use ai_saas_multi_tenant.Model.Action.{Call, Result, ok, throw, unauthorized, record_missing}
use ai_saas_multi_tenant.Auth.Tokens.{
  IssuedTokens, is_spent, find_token, revoke_family, revoke_one, create_refresh,
}

-- Where one request stands: what it has read, and so the call that it makes next.
pub data Rotating : Type 0 where
  looking : Rotating
  refusing : RefreshToken → Rotating
  consuming issuing : RefreshToken → User → Rotating
  answered : Result IssuedTokens → Rotating

-- What follows the read of the token with its owner, up to the next call.
abbrev pub decide : Call → Option RefreshToken → (RefreshToken → Option User) → Rotating
decide c none owner = answered (throw unauthorized)
decide c (some existing) owner = elim (owner existing) [
  | none ↦ answered (throw record_missing)
  | some user ↦ if is_spent c.now existing then refusing existing else consuming existing user
]

module _ (x : External) (env : Env) {db : Prisma} where
  -- One call of the database client.
  unfoldable pub rotate_step : Call → ℕ → DeviceInfo → Rotating → World db → Rotating × World db
  rotate_step c presented device looking w = (
    decide c (find_token x env c presented w)
        (λ t. db.find_first (λ (u : User). u.id == t.user_id) w.users),
    w,
  )
  rotate_step c presented device (refusing existing) w =
      (answered (throw unauthorized), revoke_family x env c existing.family_id w)
  rotate_step c presented device (consuming existing user) w =
      (issuing existing user, revoke_one x env c existing.id w)
  rotate_step c presented device (issuing existing user) w =
      let (r, w') =
        create_refresh x env c (record { sub = user.id; email = user.email }) existing.family_id
          device w in
      (answered r, w')
  rotate_step c presented device (answered r) w = (answered r, w)

-- Two requests that present the same token, over one database.
pub record Race (db : Prisma) : Type 0 where
  pub first : Rotating
  pub second : Rotating
  pub state : World db

module _ (x : External) (env : Env) (c c' : Call) (presented : ℕ) (device : DeviceInfo)
    {db : Prisma} where
  -- The first request makes its next call where the turn is `true`, and the second where it is not.
  unfoldable pub turn : Bool → Race db → Race db
  turn true r =
      let (p, w) = rotate_step x env c presented device r.first r.state in
      record { first = p; second = r.second; state = w }
  turn false r =
      let (p, w) = rotate_step x env c' presented device r.second r.state in
      record { first = r.first; second = p; state = w }

  unfoldable pub interleave : List Bool → Race db → Race db
  interleave [] r = r
  interleave (b ∷ bs) r = interleave bs (turn b r)
