-- ===== src/Tests/Sessions.antt =====
-- The theorems on sessions at the fixture.
use ai_saas_multi_tenant.Base.{
  ℕ, zero, suc, ◌==◌, ◌++◌, Option, true, false, ◌≡◌, refl, sym, ap, ◌∙◌, ◌⊎◌, inl, inr, none, some,
  [], ◌∷◌, arith,
}
use ai_saas_multi_tenant.Prisma.Memory.{memory}
use ai_saas_multi_tenant.Model.Data.{User, RefreshToken}
use ai_saas_multi_tenant.Model.World.{World}
use ai_saas_multi_tenant.Model.Action.{ok, throw, unauthorized}
use ai_saas_multi_tenant.Auth.Tokens.{hash, new_token, rotate}
use ai_saas_multi_tenant.Auth.Families.{IsDead, OneActive}
use ai_saas_multi_tenant.Auth.Rotation.{rotate-OneActive, rotate_reuse}
use ai_saas_multi_tenant.Auth.Replay.{UniqueHash, rotate_once}
use ai_saas_multi_tenant.Auth.Interleaved.{looking, interleave}
use ai_saas_multi_tenant.Auth.Interleaved.Overlap.{BothAnswered, both, overlap-both}
use ai_saas_multi_tenant.Auth.Accounts.{LoginInput, Session, IsLogin, login, login_cases}
use ai_saas_multi_tenant.Web.Client.{Response, ClientState, answer, request, request_lem}
use ai_saas_multi_tenant.Tests.Fixture.{
  external, env, call, later, device, ada, token, revoked_token, world,
}

world-OneActive : OneActive memory world
world-OneActive s t (inl e) (inl f) same r q =
    ap (λ (t : RefreshToken). t.id) e ∙ sym (ap (λ (t : RefreshToken). t.id) f)
world-OneActive s t (inl e) (inr m) same r q = absurd m
world-OneActive s t (inr m) n same r q = absurd m

world-UniqueHash : UniqueHash memory world
world-UniqueHash s t (inl e) (inl f) same = e ∙ sym f
world-UniqueHash s t (inl e) (inr m) same = absurd m
world-UniqueHash s t (inr m) n same = absurd m

abbrev spent_world : World memory
spent_world = record world { refresh_tokens = revoked_token ∷ [] }

rotate-OneActive_example : OneActive memory (rotate external env call 3 device world).1
rotate-OneActive_example = rotate-OneActive external env call 3 device world world-OneActive

rotate_reuse_example :
    ((rotate external env call 3 device spent_world).0 ≡ throw unauthorized)
    × IsDead memory 9 (rotate external env call 3 device spent_world).1
unfolding hash
rotate_reuse_example =
    rotate_reuse external env call 3 device spent_world revoked_token ada refl refl refl

rotate_once_example :
    IsDead memory 9
      (rotate external env later 3 device (rotate external env call 3 device world).1).1
unfolding hash
rotate_once_example =
    (rotate_once external env call 3 device world token ada later device refl refl refl
      world-UniqueHash (λ e. ground (arith, e))).3

overlap_example : BothAnswered external env device token ada call later (
    interleave external env call later 3 device
      (true ∷ false ∷ true ∷ false ∷ false ∷ true ∷ [])
      (both external env device token ada looking world))
unfolding hash
overlap_example =
    overlap-both external env device token ada call later 3 world (true ∷ false ∷ false ∷ true ∷ [])
      refl refl refl refl (λ e. ground (arith, e)) (λ e. ground (arith, e)) (λ e. ground (arith, e))
      (omega arith) (omega arith)

login_example :
    let input : LoginInput = record { email = 11; password = 5 } in
    (login external env call 0 input device world ≡ (throw unauthorized, world))
    ⊎ ((u : User) × IsLogin external env call 0 input device world u
        × ((login external env call 0 input device world).1.refresh_tokens
            ≡ memory.create
                (new_token external env call (record { sub = u.id; email = u.email }) 51 device)
                world.refresh_tokens)
        × ((s : Session) × ((login external env call 0 input device world).0 ≡ ok s)
            × (s.user_id ≡ u.id)
            × (s.tokens.refresh_token ≡ 7)))
login_example = login_cases external env call 0 (record { email = 11; password = 5 }) device world

-- A server that refuses the first try and takes the second.
abbrev server : ℕ → Option ℕ → Response
server zero sent = record { status = 401; body = 0 }
server (suc n) sent = record { status = 200; body = 3 }

abbrev refreshed : Option ℕ
refreshed = some 8

abbrev signed_in : ClientState
signed_in = record { auth = record { access_token = some 7; user_id = some 1 }; sent = [] }

request_example :
    ((fresh : ℕ) × ((401 == 401) ≡ true)
      × (refreshed ≡ some fresh)
      × ((request server refreshed signed_in).0 ≡ answer (server 1 (some fresh)))
      × ((request server refreshed signed_in).1.auth.access_token ≡ some fresh)
      × ((request server refreshed signed_in).1.sent
          ≡ ([] ++ signed_in.auth.access_token ∷ []) ++ some fresh ∷ []))
    ⊎ ((((401 == 401) ≡ false) ⊎ (refreshed ≡ none))
        × ((request server refreshed signed_in).0 ≡ answer (server 0 (some 7)))
        × ((request server refreshed signed_in).1.auth ≡ signed_in.auth)
        × ((request server refreshed signed_in).1.sent ≡ [] ++ signed_in.auth.access_token ∷ []))
request_example = request_lem server refreshed signed_in
