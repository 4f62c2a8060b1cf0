-- ===== src/Web/Client.antt =====
-- The API client of the browser: apps/web/lib/api.ts and apps/web/lib/auth-store.ts. What the server
-- answers to the n-th try with a token, and to the refresh, is given; tokens are numbers.
use ai_saas_multi_tenant.Base.{
  ℕ, ◌≡◌, ◌⊎◌, inl, inr, Bool, true, false, ◌&&◌, Option, none, some, List, [], ◌∷◌, ◌++◌, arith,
  leb, ◌==◌, if◌then◌else◌, Option-cases, Bool-cases,
}

pub record AuthState : Type 0 where
  pub access_token : Option ℕ
  pub user_id : Option ℕ

-- `setAuth`, whose second argument is null where it is left out
unfoldable pub set_auth : ℕ → Option ℕ → AuthState → AuthState
set_auth token user s = record { access_token = some token; user_id = user }

unfoldable pub clear : AuthState → AuthState
clear s = record { access_token = none; user_id = none }

pub record Response : Type 0 where
  pub status : ℕ
  pub body : ℕ

pub data Reply : Type 0 where
  received : ℕ → Reply
  no_content : Reply
  api_error : ℕ → Reply

-- `res.ok`
abbrev pub is_ok : Response → Bool
is_ok r = leb 200 r.status && leb r.status 299

unfoldable pub answer : Response → Reply
answer r =
    if is_ok r
    then (if r.status == 204 then no_content else received r.body)
    else api_error r.status

-- The state of the client: the store, and the tokens that were sent, in order.
pub record ClientState : Type 0 where
  pub auth : AuthState
  pub sent : List (Option ℕ)

unfoldable pub refresh_access_token : Option ℕ → ClientState → ClientState
unfolding set_auth
refresh_access_token none s = s
refresh_access_token (some token) s = record s { auth = set_auth token none s.auth }

abbrev pub note_sent : ClientState → ClientState
note_sent s = record s { sent = s.sent ++ s.auth.access_token ∷ [] }

module _ (server : ℕ → Option ℕ → Response) (refreshed : Option ℕ) where
  -- `request(path, opts, false)`
  unfoldable pub request_again : ClientState → Reply × ClientState
  request_again s = (answer (server 1 s.auth.access_token), note_sent s)

  -- `if (fresh) return request(path, opts, false)`, behind the refresh
  unfoldable pub retry : Option ℕ → Response → ClientState → Reply × ClientState
  unfolding request_again
  retry none first s = (answer first, s)
  retry (some fresh) first s = request_again s

  -- `request(path, opts)`
  unfoldable pub request : ClientState → Reply × ClientState
  unfolding retry refresh_access_token
  request s =
      let first = server 0 s.auth.access_token in
      if first.status == 401
      then retry refreshed first (refresh_access_token refreshed (note_sent s))
      else (answer first, note_sent s)

  -- A request that is answered with 401 and then refreshed is sent once more, with the fresh token,
  -- and the second answer is final, also where it is 401 again; in all other cases the first answer
  -- is final and the store is as before.
  pub request_lem :
      (s : ClientState)
      → let first = server 0 s.auth.access_token in
        (((fresh : ℕ) × ((first.status == 401) ≡ true)
            × (refreshed ≡ some fresh)
            × ((request s).0 ≡ answer (server 1 (some fresh)))
            × ((request s).1.auth.access_token ≡ some fresh)
            × ((request s).1.sent ≡ (s.sent ++ s.auth.access_token ∷ []) ++ some fresh ∷ []))
          ⊎ ((((first.status == 401) ≡ false) ⊎ (refreshed ≡ none))
              × ((request s).0 ≡ answer first)
              × ((request s).1.auth ≡ s.auth)
              × ((request s).1.sent ≡ s.sent ++ s.auth.access_token ∷ [])))
  unfolding request retry request_again refresh_access_token set_auth
  request_lem s = elim (Bool-cases ((server 0 s.auth.access_token).status == 401)) [
    | inr other ↦
        inr (inl other, ground (arith, other), ground (arith, other), ground (arith, other))
    | inl expired ↦ elim (Option-cases refreshed) [
      | inl failed ↦ inr (
        inr failed,
        ground (arith, expired, failed),
        ground (arith, expired, failed),
        ground (arith, expired, failed),
      )
      | inr (fresh, again) ↦ inl (
        fresh,
        expired,
        again,
        ground (arith, expired, again),
        ground (arith, expired, again),
        ground (arith, expired, again),
      )
    ]
  ]
