-- ===== src/Auth/Accounts.antt =====
-- Sessions of an account: `login`, `refresh`, `logout` and `me` of
-- apps/api/src/modules/auth/auth.service.ts.
use ai_saas_multi_tenant.Base.{
  ℕ, ◌+◌, ◌*◌, ◌≡◌, refl, ◌⊎◌, inl, inr, Bool, true, false, not, ◌||◌, Option, none, some, List,
  arith, ◌==◌, Option-cases, Bool-cases, ==_iff,
}
use ai_saas_multi_tenant.Prisma.{Prisma}
use ai_saas_multi_tenant.Prisma.Rows.{In, select}
use ai_saas_multi_tenant.Model.Data.{RowId, User, DeviceInfo, Membership}
use ai_saas_multi_tenant.Model.World.{World}
use ai_saas_multi_tenant.Model.Platform.{External, Env}
use ai_saas_multi_tenant.Model.Action.{
  Action, Call, ok, throw, unauthorized, record_missing, pure, gets, or_throw, throw_if, ◌>>=◌,
  ◌>>◌,
}
use ai_saas_multi_tenant.Auth.Tokens.{
  IssuedTokens, create_refresh, issue_for_user, new_token, sign_access, rotate, revoke,
}

pub record LoginInput : Type 0 where
  pub email : ℕ
  pub password : ℕ

pub record Session : Type 0 where
  pub tokens : IssuedTokens
  pub user_id : RowId

-- `!user.passwordHash || !ok`; without a hash the comparison is made with `dummy`.
unfoldable pub is_wrong : External → ℕ → ℕ → Option ℕ → Bool
is_wrong x dummy password none =
    let compared = x.bcrypt_compare password dummy in true || not compared
is_wrong x dummy password (some hash) = not (x.bcrypt_compare password hash)

module _ (x : External) (env : Env) (c : Call) {db : Prisma} where
  abbrev pub find_user : ℕ → World db → Option User
  find_user email w = db.find_first (λ (u : User). u.email == email) w.users

  -- An unknown address and a wrong password throw alike.
  unfoldable pub login : ℕ → LoginInput → DeviceInfo → Action db Session
  login dummy input device = do
    user ← or_throw unauthorized (← gets (find_user input.email))
    throw_if (is_wrong x dummy input.password user.password_hash) unauthorized
    tokens ← issue_for_user x env c (record { sub = user.id; email = user.email }) device
    pure (record { tokens = tokens; user_id = user.id })

  unfoldable pub refresh : ℕ → DeviceInfo → Action db IssuedTokens
  refresh token device = rotate x env c token device

  unfoldable pub logout : Option ℕ → Action db (Unit {0})
  logout none = pure tt
  logout (some token) = revoke x env c token

  -- the user, and its memberships
  unfoldable pub me : RowId → Action db (User × List Membership)
  me user = do
    u ← or_throw record_missing (← gets (λ w. db.find_first (λ (u : User). u.id == user) w.users))
    ms ← gets (λ w. select (λ (m : Membership). m.user_id == u.id) (db.rows w.memberships))
    pure (u, ms)

  module _ (dummy : ℕ) (input : LoginInput) (device : DeviceInfo) (w : World db) where
    -- The password fits the hash that is stored for the user.
    abbrev pub IsLogin : User → Type 0
    IsLogin u =
        In u (db.rows w.users)
        × (u.email ≡ input.email)
        × ((h : ℕ) × (u.password_hash ≡ some h) × (x.bcrypt_compare input.password h ≡ true))

    login-unknown :
        find_user input.email w ≡ none → login dummy input device w ≡ (throw unauthorized, w)
    unfolding login
    login-unknown missing = rw missing

    module _ (u : User) (found : find_user input.email w ≡ some u) where
      login-wrong :
          is_wrong x dummy input.password u.password_hash ≡ true
          → login dummy input device w ≡ (throw unauthorized, w)
      unfolding login
      login-wrong bad = rw (found, bad)

      login-issued :
          is_wrong x dummy input.password u.password_hash ≡ false
          → ((login dummy input device w).1.refresh_tokens
              ≡ db.create
                  (new_token x env c (record { sub = u.id; email = u.email }) (c.ids 1) device)
                  w.refresh_tokens)
            × ((s : Session) × ((login dummy input device w).0 ≡ ok s)
                × (s.user_id ≡ u.id)
                × (s.tokens.refresh_token ≡ c.random))
      unfolding login issue_for_user create_refresh
      login-issued good = (
        ground (arith, found, good),
        (
          record {
            tokens = record {
              access_token = sign_access x env c (record { sub = u.id; email = u.email });
              refresh_token = c.random;
              refresh_expires_at = c.now + env.jwt_refresh_ttl * 1000;
            };
            user_id = u.id;
          },
          ground (arith, found, good),
          refl,
          refl,
        ),
      )

    right_hash :
        (o : Option ℕ)
        → is_wrong x dummy input.password o ≡ false
        → (h : ℕ) × (o ≡ some h) × (x.bcrypt_compare input.password h ≡ true)
    unfolding is_wrong
    right_hash none e = cc
    right_hash (some h) e = (h, refl, ground arith)

    -- `login` throws `unauthorized` and changes nothing, or the address is that of a stored user whose
    -- stored hash fits the password, and it returns a session of that user and stores one refresh token,
    -- of that user, in a fresh family.
    pub login_cases :
        (login dummy input device w ≡ (throw unauthorized, w))
        ⊎ ((u : User) × IsLogin u
            × ((login dummy input device w).1.refresh_tokens
                ≡ db.create
                    (new_token x env c (record { sub = u.id; email = u.email }) (c.ids 1) device)
                    w.refresh_tokens)
            × ((s : Session) × ((login dummy input device w).0 ≡ ok s)
                × (s.user_id ≡ u.id)
                × (s.tokens.refresh_token ≡ c.random)))
    login_cases = elim (Option-cases (find_user input.email w)) [
      | inl missing ↦ inl (login-unknown missing)
      | inr (u, found) ↦ elim (Bool-cases (is_wrong x dummy input.password u.password_hash)) [
        | inl bad ↦ inl (login-wrong u found bad)
        | inr good ↦
            let (stored, holds) = db.find_first-some _ w.users found in
            let (table, session) = login-issued u found good in
            inr (
              u,
              (stored, (==_iff u.email input.email).0 holds, right_hash u.password_hash good),
              table,
              session,
            )
      ]
    ]
