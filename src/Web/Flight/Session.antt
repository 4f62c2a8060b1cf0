-- ===== src/Web/Flight/Session.antt =====
-- The session of a tab whose requests share their refreshes, in apps/web/lib/api.ts and auth/token.service.ts.
use ai_saas_multi_tenant.Base.{
  ℕ, ◌≤◌, ◌≡◌, ◌≢◌, refl, sym, ap, ◌∙◌, inl, inr, Bool, true, false, Option, List, [], ◌∷◌, ◌++◌,
  arith, length,
}
use mathlib.Core.Path.{subst}
use ai_saas_multi_tenant.Prisma.{Prisma}
use ai_saas_multi_tenant.Prisma.Rows.{In}
use ai_saas_multi_tenant.Model.Data.{DeviceInfo, RefreshToken}
use ai_saas_multi_tenant.Model.World.{World}
use ai_saas_multi_tenant.Model.Platform.{External, Env}
use ai_saas_multi_tenant.Model.Action.{Call, Exception, ok, throw, plain_error}
use ai_saas_multi_tenant.Auth.Tokens.{hash}
use ai_saas_multi_tenant.Auth.Cookies.{AccessReply, CookieWrite, refresh}
use ai_saas_multi_tenant.Web.Client.{AuthState, set_auth}
use ai_saas_multi_tenant.Web.Flight.{
  Outcome, Tab, share_refresh, kept_cookie, settle, IsLive, IsInTime, IsHeld, Step, Reach,
}
use ai_saas_multi_tenant.Web.Flight.Answer.{single, nothing_in, refresh-IsLive}

module _ (x : External) (env : Env) (is_prod : Bool) {db : Prisma} where
  -- Where the one refresh of a tab is.
  data Phase (t : Tab) (w : World db) : Type 0 where
    resting :
        t.refreshing ≡ false
        → [] ≡ t.calls
        → [] ≡ t.outcomes
        → IsLive x env is_prod db w t.cookie
        → Phase t w
    called :
        t.refreshing ≡ true
        → t.cookie ∷ [] ≡ t.calls
        → [] ≡ t.outcomes
        → IsLive x env is_prod db w t.cookie
        → Phase t w
    failed :
        (e : Exception)
        → t.refreshing ≡ true
        → [] ≡ t.calls
        → throw e ∷ [] ≡ t.outcomes
        → IsLive x env is_prod db w t.cookie
        → Phase t w
    answered :
        (a : AccessReply × CookieWrite)
        → t.refreshing ≡ true
        → [] ≡ t.calls
        → ok a ∷ [] ≡ t.outcomes
        → IsLive x env is_prod db w (kept_cookie a.1)
        → Phase t w

  share_refresh-Phase : (t : Tab) (w : World db) → Phase t w → Phase (share_refresh t) w
  unfolding share_refresh
  share_refresh-Phase t w (resting idle none_sent none_back live) =
      rw idle (called refl (ap (λ cs. cs ++ t.cookie ∷ []) none_sent) none_back live)
  share_refresh-Phase t w (called busy sent none_back live) =
      rw busy (called refl sent none_back live)
  share_refresh-Phase t w (failed e busy none_sent back live) =
      rw busy (failed e refl none_sent back live)
  share_refresh-Phase t w (answered a busy none_sent back live) =
      rw busy (answered a refl none_sent back live)

  unreachable-Phase :
      (before : List (Option ℕ)) (cookie : Option ℕ) (after : List (Option ℕ)) (t : Tab)
      (w : World db)
      → t.calls ≡ before ++ cookie ∷ after
      → Phase t w
      → Phase
          (record t { calls = before ++ after; outcomes = t.outcomes ++ throw plain_error ∷ [] })
          w
  unreachable-Phase before cookie after t w at (called busy sent none_back live) =
      let (rest, same) = single t.cookie cookie before after (sent ∙ at) in
      failed plain_error busy (sym rest) (ap (λ os. os ++ throw plain_error ∷ []) none_back) live
  unreachable-Phase before cookie after t w at (resting idle none_sent none_back live) =
      absurd (nothing_in cookie before after (none_sent ∙ at))
  unreachable-Phase before cookie after t w at (failed e busy none_sent back live) =
      absurd (nothing_in cookie before after (none_sent ∙ at))
  unreachable-Phase before cookie after t w at (answered a busy none_sent back live) =
      absurd (nothing_in cookie before after (none_sent ∙ at))

  settle-Phase :
      (before : List Outcome) (o : Outcome) (after : List Outcome) (t : Tab) (w : World db)
      → t.outcomes ≡ before ++ o ∷ after
      → Phase t w
      → Phase (settle o (record t { outcomes = before ++ after })) w
  unfolding settle set_auth
  settle-Phase before o after t w at (failed e busy none_sent back live) =
      let (rest, same) = single (throw e) o before after (back ∙ at) in
      rw same (resting refl none_sent (sym rest) live)
  settle-Phase before o after t w at (answered a busy none_sent back live) =
      let (rest, same) = single (ok a) o before after (back ∙ at) in
      rw same (resting refl none_sent (sym rest) live)
  settle-Phase before o after t w at (resting idle none_sent none_back live) =
      absurd (nothing_in o before after (none_back ∙ at))
  settle-Phase before o after t w at (called busy sent none_back live) =
      absurd (nothing_in o before after (none_back ∙ at))

  module _ (c : Call) (device : DeviceInfo) (t : Tab) (w : World db) where
    abbrev served : Option ℕ → List (Option ℕ) → Tab × World db
    served cookie rest = (
      record t {
        calls = rest;
        outcomes = t.outcomes ++ (refresh x env is_prod c cookie device w).0 ∷ [];
      },
      (refresh x env is_prod c cookie device w).1,
    )

    serve-Phase :
        (before : List (Option ℕ)) (cookie : Option ℕ) (after : List (Option ℕ))
        → t.calls ≡ before ++ cookie ∷ after
        → IsInTime x env is_prod db w c.now cookie
        → ((row : RefreshToken)
            → In row (db.rows w.refresh_tokens)
            → row.token_hash ≢ hash x c.random)
        → Phase t w
        → Phase (served cookie (before ++ after)).0 (served cookie (before ++ after)).1
    serve-Phase before cookie after at in_time unused (called busy sent none_back live) =
        let (rest, same) = single t.cookie cookie before after (sent ∙ at) in
        let (a, done, alive) =
          refresh-IsLive x env is_prod c device w unused cookie
            (subst (IsLive x env is_prod db w) (sym same) live) in_time in
        answered a busy (sym rest)
          (ap (λ o. o ∷ []) (sym done)
            ∙ ap (λ os. os ++ (refresh x env is_prod c cookie device w).0 ∷ []) none_back)
          alive
    serve-Phase before cookie after at in_time unused (resting idle none_sent none_back live) =
        absurd (nothing_in cookie before after (none_sent ∙ at))
    serve-Phase before cookie after at in_time unused (failed e busy none_sent back live) =
        absurd (nothing_in cookie before after (none_sent ∙ at))
    serve-Phase before cookie after at in_time unused (answered a busy none_sent back live) =
        absurd (nothing_in cookie before after (none_sent ∙ at))

  elsewhere-Phase :
      (t : Tab) (w w' : World db)
      → ((cookie : Option ℕ)
          → IsHeld x env is_prod db t cookie
          → IsLive x env is_prod db w cookie
          → IsLive x env is_prod db w' cookie)
      → Phase t w
      → Phase t w'
  elsewhere-Phase t w w' keep (resting idle none_sent none_back live) =
      resting idle none_sent none_back (keep _ (inl refl) live)
  elsewhere-Phase t w w' keep (called busy sent none_back live) =
      called busy sent none_back (keep _ (inl refl) live)
  elsewhere-Phase t w w' keep (failed e busy none_sent back live) =
      failed e busy none_sent back (keep _ (inl refl) live)
  elsewhere-Phase t w w' keep (answered a busy none_sent back live) =
      answered a busy none_sent back
        (keep _ (inr (inr (a, subst (λ os. In (ok a) os) back (inl refl), refl))) live)

  Step-Phase : {s t : Tab × World db} → Step x env is_prod db s t → Phase s.0 s.1 → Phase t.0 t.1
  Step-Phase (Step.unauthorized {t} {w}) p = share_refresh-Phase t w p
  Step-Phase (Step.serve c device before cookie after {t} {w} at in_time unused) p =
      serve-Phase c device t w before cookie after at in_time unused p
  Step-Phase (Step.unreachable before cookie after {t} {w} at) p =
      unreachable-Phase before cookie after t w at p
  Step-Phase (Step.settled before o after {t} {w} at) p = settle-Phase before o after t w at p
  Step-Phase (Step.elsewhere {t} {w} {w'} keep) p = elsewhere-Phase t w w' keep p

  Reach-Phase :
      {auth : AuthState} {cookie : Option ℕ} {w : World db} {s : Tab × World db}
      → IsLive x env is_prod db w cookie
      → Reach x env is_prod db auth cookie w s
      → Phase s.0 s.1
  Reach-Phase live Reach.start = resting refl refl refl live
  Reach-Phase live (Reach.later before step) = Step-Phase step (Reach-Phase live before)

  -- At most one call is on its way, with the cookie that the tab has, and that is live.
  OneLiveCall : Tab → World db → List (Option ℕ) → Type 0
  OneLiveCall t w calls =
      (length calls ≤ 1)
      × ((cookie : Option ℕ)
          → In cookie calls
          → (cookie ≡ t.cookie) × IsLive x env is_prod db w cookie)

  no_call : (t : Tab) (w : World db) → [] ≡ t.calls → OneLiveCall t w t.calls
  unfolding OneLiveCall
  no_call t w none_sent = subst (OneLiveCall t w) none_sent (omega arith, λ cookie m. absurd m)

  Phase-OneLiveCall : (t : Tab) (w : World db) → Phase t w → OneLiveCall t w t.calls
  unfolding OneLiveCall
  Phase-OneLiveCall t w (called busy sent none_back live) =
      subst (OneLiveCall t w) sent (omega arith, only)
    where
      only :
          (cookie : Option ℕ)
          → In cookie (t.cookie ∷ [])
          → (cookie ≡ t.cookie) × IsLive x env is_prod db w cookie
      only cookie (inl e) = (e, subst (IsLive x env is_prod db w) (sym e) live)
      only cookie (inr m) = absurd m
  Phase-OneLiveCall t w (resting idle none_sent none_back live) = no_call t w none_sent
  Phase-OneLiveCall t w (failed e busy none_sent back live) = no_call t w none_sent
  Phase-OneLiveCall t w (answered a busy none_sent back live) = no_call t w none_sent

-- From a tab whose cookie is live, after any sequence of the events, with any number of requests refused at the same
-- time: a refresh that is on its way is the only one, and carries the cookie that the tab has. When it reaches the
-- server before its token expires, and the new secret has a hash that no token has, it succeeds, so that it is not taken
-- for reuse, and the cookie of the answer is one that the server knows and has not revoked.
pub Reach-shared :
    (x : External) (env : Env) (is_prod : Bool) {db : Prisma} (auth : AuthState) (cookie : Option ℕ)
    (w : World db) (s : Tab × World db) (sent : Option ℕ) (c : Call) (device : DeviceInfo)
    → IsLive x env is_prod db w cookie
    → Reach x env is_prod db auth cookie w s
    → In sent s.0.calls
    → IsInTime x env is_prod db s.1 c.now sent
    → ((row : RefreshToken)
        → In row (db.rows s.1.refresh_tokens)
        → row.token_hash ≢ hash x c.random)
    → (length s.0.calls ≤ 1)
      × (sent ≡ s.0.cookie)
      × ((a : AccessReply × CookieWrite) × ((refresh x env is_prod c sent device s.1).0 ≡ ok a)
          × IsLive x env is_prod db (refresh x env is_prod c sent device s.1).1 (kept_cookie a.1))
unfolding OneLiveCall
Reach-shared x env is_prod auth cookie w s sent c device live reached m in_time unused =
    let (few, calls) =
      Phase-OneLiveCall x env is_prod s.0 s.1 (Reach-Phase x env is_prod live reached) in
    let (same, alive) = calls sent m in
    (few, same, refresh-IsLive x env is_prod c device s.1 unused sent alive in_time)
