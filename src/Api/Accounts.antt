-- ===== src/Api/Accounts.antt =====
-- Users and refresh tokens under the operations of auth/auth.service.ts and of the preferences.
use ai_saas_multi_tenant.Base.{
  ℕ, ◌≡◌, refl, sym, inl, inr, Option, none, some, arith, ◌==◌, Option-cases,
}
use mathlib.Core.Path.{subst}
use ai_saas_multi_tenant.Prisma.{Prisma}
use ai_saas_multi_tenant.Prisma.Unique.{update_many-Once}
use ai_saas_multi_tenant.Model.Data.{RowId, User, DeviceInfo}
use ai_saas_multi_tenant.Model.World.{World}
use ai_saas_multi_tenant.Model.Platform.{External, Env}
use ai_saas_multi_tenant.Model.Action.{Call, Result}
use ai_saas_multi_tenant.Services.Notifications.{NotificationPrefs, set_prefs, update_prefs}
use ai_saas_multi_tenant.Auth.Tokens.{
  AuthUser, active_in, new_token, find_token, create_refresh, issue_for_user, exchange,
  reject_reuse, rotate, revoke,
}
use ai_saas_multi_tenant.Auth.Families.{OneActive, update-OneActive, create_refresh-OneActive}
use ai_saas_multi_tenant.Auth.Rotation.{rotate-OneActive}
use ai_saas_multi_tenant.Auth.Accounts.{LoginInput, Session, login, login_cases, refresh, logout}
use ai_saas_multi_tenant.Api.Facets.{AccountsHealthy, IsFresh}

module _ (x : External) (env : Env) (c : Call) {db : Prisma} (w : World db) where
  -- A token is added in a family that has none.
  pub new_family-OneActive :
      (user : AuthUser) (device : DeviceInfo) (v : World db)
      → IsFresh db c w
      → v.refresh_tokens ≡ db.create (new_token x env c user (c.ids 1) device) w.refresh_tokens
      → OneActive db w
      → OneActive db v
  unfolding create_refresh
  new_family-OneActive user device v fresh table one = rw table (
      create_refresh-OneActive x env c user (c.ids 1) device w one
        (λ t stored same active. fresh.tokens 1 t stored same))

  login-users :
      (dummy : ℕ) (input : LoginInput) (device : DeviceInfo)
      → (login x env c dummy input device w).1.users ≡ w.users
  unfolding login issue_for_user create_refresh
  login-users dummy input device = ground arith

  refresh-users :
      (token : ℕ) (device : DeviceInfo) → (refresh x env c token device w).1.users ≡ w.users
  unfolding refresh rotate exchange reject_reuse create_refresh
  refresh-users token device = ground arith

  pub login-AccountsHealthy :
      (dummy : ℕ) (input : LoginInput) (device : DeviceInfo)
      → IsFresh db c w
      → AccountsHealthy db w
      → AccountsHealthy db (login x env c dummy input device w).1
  login-AccountsHealthy dummy input device fresh h =
      elim (login_cases x env c dummy input device w) [
        | inl refused ↦
            subst (λ (o : Result Session × World db). AccountsHealthy db o.1) (sym refused) h
        | inr (u, _, table, _) ↦ record {
          emails = rw (login-users dummy input device) h.emails;
          one_active =
              new_family-OneActive (record { sub = u.id; email = u.email }) device
                (login x env c dummy input device w).1 fresh table h.one_active;
        }
      ]

  pub refresh-AccountsHealthy :
      (token : ℕ) (device : DeviceInfo)
      → AccountsHealthy db w
      → AccountsHealthy db (refresh x env c token device w).1
  unfolding refresh rotate exchange reject_reuse create_refresh
  refresh-AccountsHealthy token device h = record {
    emails = rw (refresh-users token device) h.emails;
    one_active = rotate-OneActive x env c token device w h.one_active;
  }

  revoke-AccountsHealthy :
      (token : ℕ) → AccountsHealthy db w → AccountsHealthy db (revoke x env c token w).1
  unfolding revoke
  revoke-AccountsHealthy token h = elim (Option-cases (find_token x env c token w)) [
    | inl missing ↦ rw (missing, revoke) h
    | inr (t, found) ↦
        rw (found, revoke)
          (record {
            emails = h.emails;
            one_active = update-OneActive x env c (active_in t.family_id) w h.one_active;
          })
  ]

  pub logout-AccountsHealthy :
      (token : Option ℕ) → AccountsHealthy db w → AccountsHealthy db (logout x env c token w).1
  unfolding logout
  logout-AccountsHealthy none h = h
  logout-AccountsHealthy (some token) h = revoke-AccountsHealthy token h

pub update_prefs-AccountsHealthy :
    {db : Prisma} (user : RowId) (prefs : NotificationPrefs) (w : World db)
    → AccountsHealthy db w
    → AccountsHealthy db (update_prefs user prefs w).1
unfolding update_prefs
update_prefs-AccountsHealthy {db} user prefs w h =
    elim (Option-cases (db.find_first (λ (u : User). u.id == user) w.users)) [
      | inl missing ↦ rw missing h
      | inr (u, found) ↦ rw found (record {
        emails =
            update_many-Once (λ (u : User). u.email) db w.users h.emails (λ u. u.id == user)
              (set_prefs prefs) (λ u. refl);
        one_active = h.one_active;
      })
    ]
