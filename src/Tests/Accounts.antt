-- ===== src/Tests/Accounts.antt =====
-- Registration and the cookie of a session, at the fixture.
use ai_saas_multi_tenant.Base.{
  ◌≡◌, ◌≢◌, refl, ap, ◌⊎◌, ◌≤◌, inl, inr, true, none, some, [], ◌∷◌, Text, length, arith,
}
use ai_saas_multi_tenant.Prisma.Memory.{memory}
use ai_saas_multi_tenant.Prisma.Rows.{In}
use ai_saas_multi_tenant.Model.Data.{User, RefreshToken}
use ai_saas_multi_tenant.Model.Action.{ok, throw, conflict}
use ai_saas_multi_tenant.Auth.Tokens.{
  IssuedTokens, hash, issue_for_user, create_refresh, sign_access,
}
use ai_saas_multi_tenant.Auth.Accounts
use ai_saas_multi_tenant.Auth.Accounts.{LoginInput, find_user}
use ai_saas_multi_tenant.Auth.Slugs.{
  base_slug, free_slug, candidate, slugify, strip_back, strip_front, dash_runs, decimal, decimal_in,
}
use ai_saas_multi_tenant.Auth.Slugs.Form.{IsSlug, base_slug-IsSlug}
use ai_saas_multi_tenant.Auth.Registration.{RegisterInput, pick_slug, register}
use ai_saas_multi_tenant.Auth.Registration.Outcome.{
  IsFree, IsRegistered, OrgOutcome, pick_slug_total, register_cases,
}
use ai_saas_multi_tenant.Auth.Cookies.{
  AccessReply, set_cookie, refresh_cookie_options, set_refresh_cookie, refresh, login,
}
use ai_saas_multi_tenant.Auth.Cookies.Session.{after_login, login-refresh}
use ai_saas_multi_tenant.Tests.Fixture.{external, env, call, later, device, world}

-- The slug of the organization that there is.
abbrev taken_name : Text
taken_name = 97 ∷ []

slug_example :
    IsSlug (base_slug external taken_name) × (length (base_slug external taken_name) ≤ 40)
slug_example = base_slug-IsSlug external taken_name

pick_example :
    (slug : Text) × (pick_slug external taken_name world ≡ some slug)
    × IsFree world slug
    × IsSlug slug
pick_example = pick_slug_total world external taken_name

-- The second round is free.
pick_second : pick_slug external taken_name world ≡ some (97 ∷ 45 ∷ 49 ∷ [])
unfolding pick_slug free_slug candidate base_slug slugify strip_back strip_front dash_runs decimal
    decimal_in
pick_second = refl

abbrev newcomer : RegisterInput
newcomer = record { email = 12; password = 6; name = 66 ∷ []; org_name = some taken_name }

register_example :
    (((u : User) × (find_user external env call 12 world ≡ some u))
      × (register external env call newcomer device world ≡ (throw conflict, world)))
    ⊎ ((find_user external env call 12 world ≡ none)
        × IsRegistered external env call newcomer device world
        × OrgOutcome external env call newcomer device world (some taken_name))
register_example = register_cases external env call newcomer device world

abbrev body : LoginInput
body = record { email = 11; password = 5 }

-- No stored token has the hash of the secret that is drawn.
hashed : hash external 7 ≡ 1007
unfolding hash
hashed = refl

unused :
    (t : RefreshToken) → In t (memory.rows world.refresh_tokens) → t.token_hash ≢ hash external 7
unused t (inl e) same =
    let stored = ap (λ (t : RefreshToken). t.token_hash) e in ground (arith, stored, same, hashed)
unused t (inr m) same = absurd m

signed_in :
    (login external env true call 0 body device world).0
    ≡ ok (
      record { access_token = 1; user_id = some 1 },
      set_cookie 7 (refresh_cookie_options true) 1000100,
    )
unfolding login Accounts.login issue_for_user create_refresh set_refresh_cookie Accounts.is_wrong
    sign_access
signed_in = refl

cookie_example :
    (reply : AccessReply) × ((i : IssuedTokens) × ((refresh external env true later
          (some 7)
          device
          (after_login external env true call later 0 body device device world)).0
        ≡ ok (reply, set_refresh_cookie true i)))
cookie_example =
    login-refresh external env true call later 0 body device device world
      (record { access_token = 1; user_id = some 1 }) 7 (refresh_cookie_options true) 1000100
      signed_in unused (omega arith)
