-- ===== src/Auth/Cookies.antt =====
-- The handlers of apps/api/src/modules/auth/auth.controller.ts, with the cookie that each writes.
pub mod Session
use ai_saas_multi_tenant.Base.{
  ℕ, Bool, true, false, Option, none, some, List, [], ◌∷◌, Text, codes, if◌then◌else◌,
}
use ai_saas_multi_tenant.Prisma.{Prisma}
use ai_saas_multi_tenant.Model.Data.{RowId, Time, User, DeviceInfo, Membership}
use ai_saas_multi_tenant.Model.World.{World}
use ai_saas_multi_tenant.Model.Platform.{External, Env}
use ai_saas_multi_tenant.Model.Action.{Action, Call, unauthorized, pure, raise, ◌>>=◌, ◌>>◌}
use ai_saas_multi_tenant.Auth.Tokens.{AuthUser, IssuedTokens}
use ai_saas_multi_tenant.Auth.Accounts
use ai_saas_multi_tenant.Auth.Accounts.{LoginInput}
use ai_saas_multi_tenant.Auth.Registration
use ai_saas_multi_tenant.Auth.Registration.{RegisterInput}

pub data SameSite : Type 0 where
  cross_site lax : SameSite

pub record CookieOptions : Type 0 where
  pub http_only : Bool
  pub secure : Bool
  pub same_site : SameSite
  pub path : Text

-- What a handler does to the cookie `refresh_token`.
pub data CookieWrite : Type 0 where
  set_cookie : ℕ → CookieOptions → Time → CookieWrite
  clear_cookie : CookieOptions → CookieWrite

-- By whether `NODE_ENV` is 'production'.
unfoldable pub refresh_cookie_options : Bool → CookieOptions
refresh_cookie_options is_prod = record {
  http_only = true;
  secure = is_prod;
  same_site = if is_prod then cross_site else lax;
  path = codes "/api/auth";
}

unfoldable pub set_refresh_cookie : Bool → IssuedTokens → CookieWrite
set_refresh_cookie is_prod tokens =
    set_cookie tokens.refresh_token (refresh_cookie_options is_prod) tokens.refresh_expires_at

-- The body of the reply; `refresh` leaves the user out.
pub record AccessReply : Type 0 where
  pub access_token : ℕ
  pub user_id : Option RowId

abbrev pub opened : Accounts.Session → AccessReply
opened s = record { access_token = s.tokens.access_token; user_id = some s.user_id }

module _ (x : External) (env : Env) (is_prod : Bool) (c : Call) {db : Prisma} where
  unfoldable pub register : RegisterInput → DeviceInfo → Action db (AccessReply × CookieWrite)
  register body device = do
    s ← Registration.register x env c body device
    pure (opened s, set_refresh_cookie is_prod s.tokens)

  unfoldable pub login : ℕ → LoginInput → DeviceInfo → Action db (AccessReply × CookieWrite)
  login dummy body device = do
    s ← Accounts.login x env c dummy body device
    pure (opened s, set_refresh_cookie is_prod s.tokens)

  unfoldable pub refresh : Option ℕ → DeviceInfo → Action db (AccessReply × CookieWrite)
  refresh none device = raise unauthorized
  refresh (some token) device = do
    tokens ← Accounts.refresh x env c token device
    pure (
      record { access_token = tokens.access_token; user_id = none },
      set_refresh_cookie is_prod tokens,
    )

  unfoldable pub logout : Option ℕ → Action db CookieWrite
  logout cookie = do
    _ ← Accounts.logout x env c cookie
    pure (clear_cookie (refresh_cookie_options is_prod))

  unfoldable pub me : AuthUser → Action db (User × List Membership)
  me user = Accounts.me x env c user.sub
