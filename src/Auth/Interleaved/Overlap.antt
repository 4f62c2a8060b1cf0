-- ===== src/Auth/Interleaved/Overlap.antt =====
-- Two rotations of one token whose calls overlap.
use ai_saas_multi_tenant.Base.{
  ℕ, zero, suc, ◌≤◌, ◌≡◌, ◌≢◌, refl, sym, ap, Bool, true, false, none, some, List, [], ◌∷◌, map,
  arith, ◌==◌,
}
use mathlib.Core.Path.{subst}
use ai_saas_multi_tenant.Prisma.{Prisma}
use ai_saas_multi_tenant.Prisma.Rows.{In, update_row, In_map, In_append, In_append_last}
use ai_saas_multi_tenant.Model.Data.{User, DeviceInfo, RefreshToken}
use ai_saas_multi_tenant.Model.World.{World}
use ai_saas_multi_tenant.Model.Platform.{External, Env}
use ai_saas_multi_tenant.Model.Action.{Call, ok}
use ai_saas_multi_tenant.Auth.Tokens.{
  hash, IssuedTokens, set_revoked, is_spent, new_token, find_token, create_refresh,
}
use ai_saas_multi_tenant.Auth.Families.{tokens}
use ai_saas_multi_tenant.Auth.Interleaved.{
  Rotating, looking, consuming, issuing, answered, rotate_step, Race, turn, interleave,
}

-- The turns of one of the two requests.
abbrev pub turns : Bool → List Bool → ℕ
turns who [] = 0
turns true (true ∷ bs) = suc (turns true bs)
turns true (false ∷ bs) = turns true bs
turns false (true ∷ bs) = turns false bs
turns false (false ∷ bs) = suc (turns false bs)

-- How far a request is that has read the token unspent.
data Stage : Type 0 where
  read revoked finished : Stage

abbrev next : Stage → Stage
next read = revoked
next revoked = finished
next finished = finished

-- The stage behind so many turns.
abbrev stage : ℕ → Stage → Stage
stage zero s = s
stage (suc n) s = stage n (next s)

two_turns : (n : ℕ) → 2 ≤ n → stage n read ≡ finished
two_turns zero h = absurd (omega arith)
two_turns (suc zero) h = absurd (omega arith)
two_turns (suc (suc n)) h = stays n
  where
    stays : (n : ℕ) → stage n finished ≡ finished
    stays zero = refl
    stays (suc n) = stays n

module _ (x : External) (env : Env) (device : DeviceInfo) (existing : RefreshToken)
    (user : User) where
  abbrev pub successor : Call → RefreshToken
  successor c =
      new_token x env c (record { sub = user.id; email = user.email }) existing.family_id device

  module _ {db : Prisma} where
    abbrev IsAt : Call → Stage → Rotating → World db → Type 0
    IsAt c read p w = p ≡ consuming existing user
    IsAt c revoked p w = p ≡ issuing existing user
    IsAt c finished p w =
        ((issued : IssuedTokens) × (p ≡ answered (ok issued)) × (issued.refresh_token ≡ c.random))
        × In (successor c) (tokens db w)

    module _ (c : Call) (presented : ℕ) where
      abbrev stepped : Rotating → World db → Rotating × World db
      stepped p w = rotate_step x env c presented device p w

      step-IsAt :
          (s : Stage) (p : Rotating) (w : World db)
          → IsAt c s p w
          → IsAt c (next s) (stepped p w).0 (stepped p w).1
      unfolding rotate_step create_refresh
      step-IsAt read p w h = rw h refl
      step-IsAt revoked p w h = rw h (
        (_, refl, refl),
        rw (db.rows-create (successor c) w.refresh_tokens) (In_append_last (tokens db w) _),
      )
      step-IsAt finished p w ((issued, e, secret), stored) = rw e ((issued, refl, secret), stored)

      -- The call of one request keeps the rows of other identifiers.
      kept_by_step :
          (s : Stage) (p : Rotating) (w : World db) (t : RefreshToken)
          → IsAt c s p w
          → t.id ≢ existing.id
          → In t (tokens db w)
          → In t (tokens db (stepped p w).1)
      unfolding rotate_step create_refresh
      kept_by_step read p w t h other stored =
          let f = update_row (λ (t : RefreshToken). t.id == existing.id) (set_revoked c.now) in
          let same : f t ≡ t = ground (arith, other) in
          rw h (
            rw (db.rows-update_many (λ t. t.id == existing.id) (set_revoked c.now) w.refresh_tokens)
              (subst (λ u. In u (map f (tokens db w))) same (In_map f (tokens db w) t stored)))
      kept_by_step revoked p w t h other stored = rw h (
          rw (db.rows-create (successor c) w.refresh_tokens)
            (In_append (tokens db w) t (successor c) stored))
      kept_by_step finished p w t ((issued, e, _), _) other stored = rw e stored

      -- And so it leaves the other request where it is.
      other-IsAt :
          (s : Stage) (p : Rotating) (w : World db) (c' : Call) (s' : Stage) (q : Rotating)
          → IsAt c s p w
          → c'.ids 0 ≢ existing.id
          → IsAt c' s' q w
          → IsAt c' s' q (stepped p w).1
      other-IsAt s p w c' read q h other at = at
      other-IsAt s p w c' revoked q h other at = at
      other-IsAt s p w c' finished q h other (answer, stored) =
          (answer, kept_by_step s p w (successor c') h other stored)

    module _ (c c' : Call) (presented : ℕ) (apart : c.ids 0 ≢ existing.id)
        (apart' : c'.ids 0 ≢ existing.id) where
      interleave-IsAt :
          (bs : List Bool) (s s' : Stage) (r : Race db)
          → IsAt c s r.first r.state
          → IsAt c' s' r.second r.state
          → let end = interleave x env c c' presented device bs r in
            IsAt c (stage (turns true bs) s) end.first end.state
            × IsAt c' (stage (turns false bs) s') end.second end.state
      unfolding interleave turn
      interleave-IsAt [] s s' r at at' = (at, at')
      interleave-IsAt (true ∷ bs) s s' r at at' =
          interleave-IsAt bs (next s) s' (turn x env c c' presented device true r)
            (step-IsAt c presented s r.first r.state at)
            (other-IsAt c presented s r.first r.state c' s' r.second at apart' at')
      interleave-IsAt (false ∷ bs) s s' r at at' =
          interleave-IsAt bs s (next s') (turn x env c c' presented device false r)
            (other-IsAt c' presented s' r.second r.state c s r.first at' apart at)
            (step-IsAt c' presented s' r.second r.state at')

    -- The token is stored, in the family of the one that was presented, and not revoked.
    abbrev pub IsHeld : World db → RefreshToken → Type 0
    IsHeld w t = In t (tokens db w) × (t.family_id ≡ existing.family_id) × (t.revoked_at ≡ none)

    -- Both requests have a new pair, whose secrets are those of two different active tokens of the
    -- one family.
    abbrev pub BothAnswered : Call → Call → Race db → Type 0
    BothAnswered c c' end =
        ((issued : IssuedTokens) × (end.first ≡ answered (ok issued))
          × (issued.refresh_token ≡ c.random))
        × ((issued : IssuedTokens) × (end.second ≡ answered (ok issued))
            × (issued.refresh_token ≡ c'.random))
        × ((s : RefreshToken) × ((t : RefreshToken) × IsHeld end.state s
              × IsHeld end.state t
              × (s.token_hash ≡ hash x c.random)
              × (t.token_hash ≡ hash x c'.random)
              × (s.id ≢ t.id)))

    abbrev pub both : Rotating → World db → Race db
    both p w = record { first = p; second = p; state = w }

    -- A read that finds the token unspent.
    looked :
        (c : Call) (presented : ℕ) (w : World db)
        → find_token x env c presented w ≡ some existing
        → db.find_first (λ (u : User). u.id == existing.user_id) w.users ≡ some user
        → is_spent c.now existing ≡ false
        → rotate_step x env c presented device looking w ≡ (consuming existing user, w)
    unfolding rotate_step
    looked c presented w found owned good = rw (found, owned, good)

    both_looked :
        (c c' : Call) (presented : ℕ) (w : World db)
        → find_token x env c presented w ≡ some existing
        → db.find_first (λ (u : User). u.id == existing.user_id) w.users ≡ some user
        → is_spent c.now existing ≡ false
        → is_spent c'.now existing ≡ false
        → turn x env c c' presented device false
            (turn x env c c' presented device true (both looking w))
          ≡ both (consuming existing user) w
    unfolding turn
    both_looked c c' presented w found owned good good' =
        rw (looked c presented w found owned good, looked c' presented w found owned good')

    -- Two requests present the same refresh token, which is active and not expired, and both read it
    -- before either writes. However their calls interleave from there, once each has made two more,
    -- both are answered with a new pair, and two different tokens of the presented token's family, one
    -- with the hash of each new secret, are stored and not revoked: neither request is taken for a
    -- reuse. The identifiers of the new rows must be fresh, and different.
    pub overlap-both :
        (c c' : Call) (presented : ℕ) (w : World db) (bs : List Bool)
        → find_token x env c presented w ≡ some existing
        → db.find_first (λ (u : User). u.id == existing.user_id) w.users ≡ some user
        → is_spent c.now existing ≡ false
        → is_spent c'.now existing ≡ false
        → c.ids 0 ≢ existing.id
        → c'.ids 0 ≢ existing.id
        → c.ids 0 ≢ c'.ids 0
        → 2 ≤ turns true bs
        → 2 ≤ turns false bs
        → BothAnswered c c'
            (interleave x env c c' presented device (true ∷ false ∷ bs) (both looking w))
    unfolding interleave
    overlap-both c c' presented w bs found owned good good' apart apart' differ enough enough' =
        let end = interleave x env c c' presented device bs (both (consuming existing user) w) in
        let (at, at') =
          interleave-IsAt c c' presented apart apart' bs read read
            (both (consuming existing user) w) refl refl in
        let (answer, stored) =
          subst (λ s. IsAt c s end.first end.state) (two_turns (turns true bs) enough) at in
        let (answer', stored') =
          subst (λ s. IsAt c' s end.second end.state) (two_turns (turns false bs) enough') at' in
        subst (BothAnswered c c')
          (ap (interleave x env c c' presented device bs)
            (sym (both_looked c c' presented w found owned good good')))
          (
            answer,
            answer',
            (
              successor c,
              (successor c', (stored, refl, refl), (stored', refl, refl), refl, refl, differ),
            ),
          )
