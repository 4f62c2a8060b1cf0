-- ===== src/Web/Flight.antt =====
-- The refresh that requests share: `refreshing` and `refreshAccessToken` of apps/web/lib/api.ts, against `refresh` of
-- apps/api/src/modules/auth/auth.controller.ts.
pub mod Answer
pub mod Session
use ai_saas_multi_tenant.Base.{
  ℕ, ◌==◌, ◌⊎◌, ◌+◌, ◌≤◌, ◌≡◌, ◌≢◌, Bool, true, false, Option, none, some, List, [], ◌∷◌, ◌++◌,
  if◌then◌else◌,
}
use ai_saas_multi_tenant.Prisma.{Prisma}
use ai_saas_multi_tenant.Prisma.Rows.{In}
use ai_saas_multi_tenant.Model.Data.{Time, User, DeviceInfo, RefreshToken}
use ai_saas_multi_tenant.Model.World.{World}
use ai_saas_multi_tenant.Model.Platform.{External, Env}
use ai_saas_multi_tenant.Model.Action.{Call, Result, ok, throw, plain_error}
use ai_saas_multi_tenant.Auth.Tokens.{hash, find_token}
use ai_saas_multi_tenant.Auth.Cookies.{AccessReply, CookieWrite, set_cookie, clear_cookie, refresh}
use ai_saas_multi_tenant.Web.Client.{AuthState, set_auth}

-- What comes of one call of the endpoint: its answer, or an error of `fetch`.
abbrev pub Outcome : Type 0
Outcome = Result (AccessReply × CookieWrite)

-- A tab: the store, the cookie that the browser keeps, whether `refreshing` is a promise, how many callers wait for
-- it, and the calls of the endpoint that are on their way, by the cookie that each carries, with the outcomes on their
-- way back.
pub record Tab : Type 0 where
  pub auth : AuthState
  pub cookie : Option ℕ
  pub refreshing : Bool
  pub waiting : ℕ
  pub calls : List (Option ℕ)
  pub outcomes : List Outcome

-- `refreshing ??= …; return refreshing`
unfoldable pub share_refresh : Tab → Tab
share_refresh t =
    if t.refreshing
    then record t { waiting = t.waiting + 1 }
    else record t { refreshing = true; waiting = 1; calls = t.calls ++ t.cookie ∷ [] }

-- What the browser does with the cookie of an answer.
abbrev pub kept_cookie : CookieWrite → Option ℕ
kept_cookie (set_cookie token o e) = some token
kept_cookie (clear_cookie o) = none

-- `finally { refreshing = null; }`
abbrev pub finish : Tab → Tab
finish t = record t { refreshing = false; waiting = 0 }

unfoldable pub settle : Outcome → Tab → Tab
unfolding set_auth
settle (ok (reply, write)) t =
    finish (record t { auth = set_auth reply.access_token none t.auth; cookie = kept_cookie write })
settle (throw e) t = finish t

module _ (x : External) (env : Env) (is_prod : Bool) (db : Prisma) where
  -- A cookie whose token the server knows and has not revoked, with the user that it belongs to.
  abbrev pub IsLive : World db → Option ℕ → Type 0
  IsLive w none = ⊥
  IsLive w (some token) =
      (row : RefreshToken) × (db.find_first (λ (t : RefreshToken). t.token_hash == hash x token)
          w.refresh_tokens
        ≡ some row)
      × (row.revoked_at ≡ none)
      × ((user : User) × (db.find_first (λ (u : User). u.id == row.user_id) w.users ≡ some user))

  abbrev pub IsInTime : World db → Time → Option ℕ → Type 0
  IsInTime w now none = Unit
  IsInTime w now (some token) =
      (row : RefreshToken)
      → db.find_first (λ (t : RefreshToken). t.token_hash == hash x token) w.refresh_tokens
        ≡ some row
      → now ≤ row.expires_at

  -- A cookie that the tab has, has sent, or is about to get.
  abbrev pub IsHeld : Tab → Option ℕ → Type 0
  IsHeld t cookie =
      (cookie ≡ t.cookie)
      ⊎ (In cookie t.calls
          ⊎ ((a : AccessReply × CookieWrite) × In (ok a) t.outcomes × (kept_cookie a.1 ≡ cookie)))

  -- One event. A call reaches the server while its token has not expired, with a new secret whose hash no token has; or
  -- it does not reach it. What others do on the server does not end the session of the tab.
  pub data Step : Tab × World db → Tab × World db → Type 0 where
    unauthorized : {t : Tab} {w : World db} → Step (t, w) (share_refresh t, w)
    serve :
        (c : Call) (device : DeviceInfo) (before : List (Option ℕ)) (cookie : Option ℕ)
        (after : List (Option ℕ)) {t : Tab} {w : World db}
        → t.calls ≡ before ++ cookie ∷ after
        → IsInTime w c.now cookie
        → ((row : RefreshToken)
            → In row (db.rows w.refresh_tokens)
            → row.token_hash ≢ hash x c.random)
        → Step
            (t, w)
            (
              record t {
                calls = before ++ after;
                outcomes = t.outcomes ++ (refresh x env is_prod c cookie device w).0 ∷ [];
              },
              (refresh x env is_prod c cookie device w).1,
            )
    unreachable :
        (before : List (Option ℕ)) (cookie : Option ℕ) (after : List (Option ℕ)) {t : Tab}
        {w : World db}
        → t.calls ≡ before ++ cookie ∷ after
        → Step
            (t, w)
            (
              record t { calls = before ++ after; outcomes = t.outcomes ++ throw plain_error ∷ [] },
              w,
            )
    settled :
        (before : List Outcome) (o : Outcome) (after : List Outcome) {t : Tab} {w : World db}
        → t.outcomes ≡ before ++ o ∷ after
        → Step (t, w) (settle o (record t { outcomes = before ++ after }), w)
    elsewhere :
        {t : Tab} {w w' : World db}
        → ((cookie : Option ℕ) → IsHeld t cookie → IsLive w cookie → IsLive w' cookie)
        → Step (t, w) (t, w')

  -- From a tab that has the cookie and has not asked for a refresh.
  pub data Reach (auth : AuthState) (cookie : Option ℕ) (w : World db)
      : Tab × World db → Type 0 where
    start : Reach auth cookie w (
      record {
        auth = auth;
        cookie = cookie;
        refreshing = false;
        waiting = 0;
        calls = [];
        outcomes = [];
      },
      w,
    )
    later : {s t : Tab × World db} → Reach auth cookie w s → Step s t → Reach auth cookie w t
