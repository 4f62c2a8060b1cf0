-- ===== src/Web/Flight/Answer.antt =====
-- The answer to a refresh in auth/auth.controller.ts, and lists of calls.
use ai_saas_multi_tenant.Base.{
  ℕ, ◌≡◌, ◌≢◌, refl, sym, ap, ◌∙◌, Bool, Option, none, some, List, [], ◌∷◌, ◌++◌, ◌==◌,
}
use mathlib.Core.Path.{subst}
use ai_saas_multi_tenant.Prisma.{Prisma}
use ai_saas_multi_tenant.Prisma.Rows.{In, map-In}
use ai_saas_multi_tenant.Model.Data.{User, DeviceInfo, RefreshToken}
use ai_saas_multi_tenant.Model.World.{World}
use ai_saas_multi_tenant.Model.Platform.{External, Env}
use ai_saas_multi_tenant.Model.Action.{Call, ok}
use ai_saas_multi_tenant.Auth.Tokens.{
  hash, new_token, revoke_one, set_revoked, exchange, create_refresh,
}
use ai_saas_multi_tenant.Auth.Rotation.{rotate-good}
use ai_saas_multi_tenant.Auth.Replay.{update_row-token_hash}
use ai_saas_multi_tenant.Auth.Cookies.{AccessReply, CookieWrite, refresh, set_refresh_cookie}
use ai_saas_multi_tenant.Auth.Cookies.Session.{
  find_token-new, owner_of_row, unspent_until, refresh-ok, refresh-state,
}
use ai_saas_multi_tenant.Web.Flight.{kept_cookie, IsLive, IsInTime}

module _ {ℓ} {A : Type ℓ} where
  -- A list of one element is split at that element alone.
  pub single :
      (a b : A) (before after : List A)
      → a ∷ [] ≡ before ++ b ∷ after
      → (before ++ after ≡ []) × (b ≡ a)
  single a b [] [] e = (refl, cc)
  single a b [] (c ∷ after) e = cc
  single a b (c ∷ []) after e = cc
  single a b (c ∷ d ∷ before) after e = cc

  pub nothing_in : (b : A) (before after : List A) → [] ≡ before ++ b ∷ after → ⊥
  nothing_in b [] after e = cc
  nothing_in b (c ∷ before) after e = cc

module _ (x : External) (env : Env) (is_prod : Bool) {db : Prisma} (c : Call) (device : DeviceInfo)
    (w : World db)
    (unused : (row : RefreshToken)
      → In row (db.rows w.refresh_tokens)
      → row.token_hash ≢ hash x c.random) where
  -- A revocation does not change what hashes there are.
  still_unused :
      (p : RefreshToken → Bool) (t : RefreshToken)
      → In t (db.rows (db.update_many p (set_revoked c.now) w.refresh_tokens))
      → t.token_hash ≢ hash x c.random
  still_unused p t m same =
      let (row, n, e) =
        map-In _ (db.rows w.refresh_tokens)
          (rw (db.rows-update_many p (set_revoked c.now) w.refresh_tokens) at m) in
      unused row n (
        sym (update_row-token_hash c.now p row)
        ∙ sym (ap (λ (r : RefreshToken). r.token_hash) e)
        ∙ same)

  exchange-IsLive :
      (row : RefreshToken) (user : User)
      → In user (db.rows w.users)
      → IsLive x env is_prod db (exchange x env c row user device w).1 (some c.random)
  unfolding exchange create_refresh
  exchange-IsLive row user stored =
      let after = (exchange x env c row user device w).1 in
      let new =
        new_token x env c (record { sub = user.id; email = user.email }) row.family_id device in
      let revoked = revoke_one x env c row.id w in
      (
        new,
        find_token-new x env c after new c.random revoked.refresh_tokens refl refl
            (still_unused (λ t. t.id == row.id)),
        refl,
        owner_of_row after user stored,
      )

  -- A live cookie that is served in time is answered with another live one.
  pub refresh-IsLive :
      (cookie : Option ℕ)
      → IsLive x env is_prod db w cookie
      → IsInTime x env is_prod db w c.now cookie
      → (a : AccessReply × CookieWrite) × ((refresh x env is_prod c cookie device w).0 ≡ ok a)
        × IsLive x env is_prod db (refresh x env is_prod c cookie device w).1 (kept_cookie a.1)
  unfolding exchange create_refresh set_refresh_cookie
  refresh-IsLive none live in_time = absurd live
  refresh-IsLive (some token) (row, found, active, (user, owned)) in_time =
      let good = unspent_until c.now row active (in_time row found) in
      let rotated = rotate-good x env c token device w row user found owned good in
      let (reply, done) = refresh-ok x env is_prod c token device w _ (ap (λ o. o.0) rotated) in
      let state = refresh-state x env is_prod c token device w ∙ ap (λ o. o.1) rotated in
      let live = exchange-IsLive row user (db.find_first-some _ w.users owned).0 in
      ((reply, _), done, subst (λ w'. IsLive x env is_prod db w' (some c.random)) (sym state) live)
