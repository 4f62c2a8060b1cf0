-- ===== src/Auth/Cookies/Session.antt =====
-- A session over several requests: `login`, then `refresh` with the cookie.
use ai_saas_multi_tenant.Base.{
  ℕ, ◌+◌, ◌*◌, ◌≤◌, ◌≡◌, ◌≢◌, refl, sym, ap, ◌∙◌, inl, inr, Bool, false, none, some, [], ◌∷◌, ◌++◌,
  arith, ◌==◌, ==_iff, Option-cases, Bool-cases,
}
use mathlib.Core.Path.{subst}
use ai_saas_multi_tenant.Prisma.{Prisma}
use ai_saas_multi_tenant.Prisma.Rows.{In, append-In, In_append_last, All_lookup}
use ai_saas_multi_tenant.Model.Data.{Time, User, DeviceInfo, RefreshToken}
use ai_saas_multi_tenant.Model.World.{World}
use ai_saas_multi_tenant.Model.Platform.{External, Env}
use ai_saas_multi_tenant.Model.Action.{Call, Exception, ok, throw}
use ai_saas_multi_tenant.Model.Binds.{bind_pure-state, bind_pure-ok, bind_pure-value}
use ai_saas_multi_tenant.Auth.Tokens.{
  IssuedTokens, hash, new_token, find_token, is_spent, exchange, create_refresh, issue_for_user,
  rotate,
}
use ai_saas_multi_tenant.Auth.Rotation.{rotate-good}
use ai_saas_multi_tenant.Auth.Accounts
use ai_saas_multi_tenant.Auth.Accounts.{LoginInput, is_wrong, find_user, login_cases}
use ai_saas_multi_tenant.Auth.Cookies.{
  AccessReply, CookieOptions, set_cookie, set_refresh_cookie, opened, login, refresh,
}

module _ (x : External) (env : Env) (c' : Call) {db : Prisma} (w : World db) (new : RefreshToken)
    (raw : ℕ) (before : db.Table RefreshToken) (table : w.refresh_tokens ≡ db.create new before)
    (hashed : new.token_hash ≡ hash x raw)
    (unused : (t : RefreshToken) → In t (db.rows before) → t.token_hash ≢ hash x raw) where
  stored_tokens : db.rows w.refresh_tokens ≡ db.rows before ++ new ∷ []
  stored_tokens = ap (λ t. db.rows t) table ∙ db.rows-create new before

  -- The only token under the hash is the new one.
  pub find_token-new : find_token x env c' raw w ≡ some new
  find_token-new = elim (Option-cases (find_token x env c' raw w)) [
    | inl missing ↦
        let there : In new (db.rows w.refresh_tokens) =
          subst (In new) (sym stored_tokens) (In_append_last (db.rows before) new) in
        let miss =
          All_lookup _ (db.rows w.refresh_tokens) (db.find_first-none _ w.refresh_tokens missing)
            there in
        absurd (ground (arith, miss, hashed))
    | inr (t, found) ↦
        let (m, same) =
          db.find_first-some (λ t. t.token_hash == hash x raw) w.refresh_tokens found in
        elim (append-In (db.rows before) (subst (In t) stored_tokens m)) [
          | inl old ↦ absurd (unused t old ((==_iff _ _).0 same))
          | inr is_new ↦ found ∙ ap some is_new
        ]
  ]

pub owner_of_row :
    {db : Prisma} (w : World db) (u : User)
    → In u (db.rows w.users)
    → (v : User) × (db.find_first (λ (v : User). v.id == u.id) w.users ≡ some v)
owner_of_row {db} w u there =
    elim (Option-cases (db.find_first (λ (v : User). v.id == u.id) w.users)) [
      | inr (v, found) ↦ (v, found)
      | inl missing ↦
          let miss = All_lookup _ (db.rows w.users) (db.find_first-none _ w.users missing) there in
          absurd (ground (arith, miss))
    ]

pub unspent_until :
    (now : Time) (t : RefreshToken)
    → t.revoked_at ≡ none
    → now ≤ t.expires_at
    → is_spent now t ≡ false
unspent_until now t active in_time = ground (arith, active, in_time)

exchange-ok :
    (x : External) (env : Env) (c : Call) {db : Prisma} (t : RefreshToken) (u : User)
    (device : DeviceInfo) (w : World db)
    → (i : IssuedTokens) × ((exchange x env c t u device w).0 ≡ ok i)
unfolding exchange create_refresh
exchange-ok x env c t u device w = (_, refl)

ok_is_not_throw : {A : Type 0} {a : A} {e : Exception} → throw e ≡ ok a → ⊥
ok_is_not_throw h = cc

ok_inj : {A : Type 0} {a b : A} → ok a ≡ ok b → a ≡ b
ok_inj h = cc

module _ (x : External) (env : Env) (is_prod : Bool) {db : Prisma} where
  pub refresh-ok :
      (c : Call) (token : ℕ) (device : DeviceInfo) (w : World db) (i : IssuedTokens)
      → (rotate x env c token device w).0 ≡ ok i
      → (reply : AccessReply) × ((refresh x env is_prod c (some token) device w).0
          ≡ ok (reply, set_refresh_cookie is_prod i))
  unfolding refresh Accounts.refresh
  refresh-ok c token device w i e = (
    record { access_token = i.access_token; user_id = none },
    bind_pure-ok (rotate x env c token device)
        (λ tokens. (
          record { access_token = tokens.access_token; user_id = none },
          set_refresh_cookie is_prod tokens,
        ))
        w i e,
  )

  pub refresh-state :
      (c : Call) (token : ℕ) (device : DeviceInfo) (w : World db)
      → (refresh x env is_prod c (some token) device w).1 ≡ (rotate x env c token device w).1
  unfolding refresh Accounts.refresh
  refresh-state c token device w =
      bind_pure-state (rotate x env c token device)
        (λ tokens. (
          record { access_token = tokens.access_token; user_id = none },
          set_refresh_cookie is_prod tokens,
        ))
        w

  module _ (c c' : Call) (dummy : ℕ) (body : LoginInput) (device device' : DeviceInfo)
      (w : World db) where
    abbrev pub after_login : World db
    after_login = (login x env is_prod c dummy body device w).1

    login-state : after_login ≡ (Accounts.login x env c dummy body device w).1
    unfolding login
    login-state =
        bind_pure-state (Accounts.login x env c dummy body device)
          (λ s. (opened s, set_refresh_cookie is_prod s.tokens)) w

    login-session :
        (reply : AccessReply) (token : ℕ) (o : CookieOptions) (e : Time)
        → (login x env is_prod c dummy body device w).0 ≡ ok (reply, set_cookie token o e)
        → (s : Accounts.Session) × ((Accounts.login x env c dummy body device w).0 ≡ ok s)
          × (s.tokens.refresh_token ≡ token)
    unfolding login set_refresh_cookie
    login-session reply token o e signed =
        let (s, made, same) =
          bind_pure-value (Accounts.login x env c dummy body device)
            (λ s. (opened s, set_refresh_cookie is_prod s.tokens)) w (reply, set_cookie token o e)
            signed in
        (s, made, cookie (ap (λ p. p.1) same))
      where
        cookie :
            {t t' : ℕ} {p p' : CookieOptions} {d d' : Time}
            → set_cookie t p d ≡ set_cookie t' p' d'
            → t ≡ t'
        cookie k = cc

    login-users : (Accounts.login x env c dummy body device w).1.users ≡ w.users
    unfolding Accounts.login issue_for_user create_refresh
    login-users = elim (Option-cases (find_user x env c body.email w)) [
      | inl missing ↦ ground (arith, missing)
      | inr (u, found) ↦ elim (Bool-cases (is_wrong x dummy body.password u.password_hash)) [
        | inl bad ↦ ground (arith, found, bad)
        | inr good ↦ ground (arith, found, good)
      ]
    ]

    -- The cookie that `login` sets opens a session: in the state that the login leaves, before any other
    -- request, a request to `refresh` with it that comes before it expires succeeds and sets a new
    -- cookie, where no stored token had the hash of the new secret.
    pub login-refresh :
        (reply : AccessReply) (token : ℕ) (o : CookieOptions) (e : Time)
        → (login x env is_prod c dummy body device w).0 ≡ ok (reply, set_cookie token o e)
        → ((t : RefreshToken) → In t (db.rows w.refresh_tokens) → t.token_hash ≢ hash x c.random)
        → c'.now ≤ c.now + env.jwt_refresh_ttl * 1000
        → (reply' : AccessReply) × ((i : IssuedTokens) × ((refresh x env is_prod c'
                (some token)
                device'
                after_login).0
              ≡ ok (reply', set_refresh_cookie is_prod i)))
    login-refresh reply token o e signed unused in_time =
        let (s, made, same_token) = login-session reply token o e signed in
        elim (login_cases x env c dummy body device w) [
          | inl refused ↦ absurd (ok_is_not_throw (sym (ap (λ p. p.0) refused) ∙ made))
          | inr (u, (stored, _, _), table, (s', made', _, secret)) ↦
              let new =
                new_token x env c (record { sub = u.id; email = u.email }) (c.ids 1) device in
              let random : token ≡ c.random =
                sym same_token
                ∙ ap (λ (s : Accounts.Session). s.tokens.refresh_token) (ok_inj (sym made ∙ made'))
                ∙ secret in
              let found =
                find_token-new x env c' after_login new c.random w.refresh_tokens
                  (ap (λ (w : World db). w.refresh_tokens) login-state ∙ table) refl unused in
              let there =
                subst (λ us. In u (db.rows us))
                  (sym (ap (λ (w : World db). w.users) login-state ∙ login-users)) stored in
              let (v, owned) = owner_of_row after_login u there in
              let (i, ex) = exchange-ok x env c' new v device' after_login in
              let rotated =
                ap (λ p. p.0)
                  (rotate-good x env c' c.random device' after_login new v found owned
                    (unspent_until c'.now new refl in_time))
                ∙ ex in
              let (reply', done) = refresh-ok c' c.random device' after_login i rotated in
              (
                reply',
                (
                  i,
                  subst
                      (λ t.
                        (refresh x env is_prod c' (some t) device' after_login).0
                        ≡ ok (reply', set_refresh_cookie is_prod i))
                      (sym random) done,
                ),
              )
        ]
