-- ===== src/Tests/Refreshes.antt =====
-- Two requests of a tab that are refused at the same time, and the refresh that they share.
use ai_saas_multi_tenant.Base.{
  ℕ, ◌≤◌, ◌≡◌, ◌≢◌, refl, ap, inl, inr, true, false, Option, none, some, [], ◌∷◌, length, arith,
}
use ai_saas_multi_tenant.Prisma.Memory.{memory}
use ai_saas_multi_tenant.Prisma.Rows.{In}
use ai_saas_multi_tenant.Model.Data.{RefreshToken}
use ai_saas_multi_tenant.Model.Action.{ok}
use ai_saas_multi_tenant.Auth.Tokens.{hash}
use ai_saas_multi_tenant.Auth.Cookies.{AccessReply, CookieWrite, refresh}
use ai_saas_multi_tenant.Web.Client.{AuthState}
use ai_saas_multi_tenant.Web.Flight.{Tab, share_refresh, kept_cookie, IsLive, IsInTime, Step, Reach}
use ai_saas_multi_tenant.Web.Flight.Session.{Reach-shared}
use ai_saas_multi_tenant.Tests.Fixture.{external, env, call, device, ada, token, world}

abbrev auth : AuthState
auth = record { access_token = some 1; user_id = some 1 }

abbrev tab : Tab
tab = record {
  auth = auth;
  cookie = some 3;
  refreshing = false;
  waiting = 0;
  calls = [];
  outcomes = [];
}

signed_in : IsLive external env true memory world (some 3)
unfolding hash
signed_in = (token, refl, refl, (ada, refl))

abbrev asked : Tab
asked = share_refresh (share_refresh tab)

asked_once : asked.calls ≡ some 3 ∷ []
unfolding share_refresh
asked_once = refl

in_time : IsInTime external env true memory world 100 (some 3)
unfolding hash
in_time row e = let expiry = ap expiry_of e in omega (arith, expiry)
  where
    expiry_of : Option RefreshToken → ℕ
    expiry_of none = 0
    expiry_of (some t) = t.expires_at

unused :
    (row : RefreshToken)
    → In row (memory.rows world.refresh_tokens)
    → row.token_hash ≢ hash external 7
unfolding hash
unused row (inl e) same =
    let stored = ap (λ (t : RefreshToken). t.token_hash) e in omega (arith, stored, same)
unused row (inr m) same = absurd m

asked_reached : Reach external env true memory auth (some 3) world (asked, world)
asked_reached = Reach.later (Reach.later Reach.start Step.unauthorized) Step.unauthorized

shared_example :
    (length asked.calls ≤ 1)
    × (some 3 ≡ asked.cookie)
    × ((a : AccessReply × CookieWrite) × ((refresh external env true call (some 3) device world).0
          ≡ ok a)
        × IsLive external env true memory
            (refresh external env true call (some 3) device world).1
            (kept_cookie a.1))
unfolding share_refresh
shared_example =
    Reach-shared external env true auth (some 3) world (asked, world) (some 3) call device signed_in
      asked_reached (inl refl) in_time unused
