-- ===== src/Auth/Families.antt =====
-- Families of refresh tokens under the writes of auth/token.service.ts.
use ai_saas_multi_tenant.Base.{
  ◌≡◌, ◌≢◌, inl, inr, Bool, false, none, List, arith, ◌==◌, Bool-cases, sym, ◌∙◌, ap,
}
use mathlib.Core.Path.{subst}
use ai_saas_multi_tenant.Prisma.{Prisma}
use ai_saas_multi_tenant.Prisma.Rows.{In, update_row, map-In, append-In}
use ai_saas_multi_tenant.Model.Data.{RowId, Time, DeviceInfo, RefreshToken}
use ai_saas_multi_tenant.Model.World.{World}
use ai_saas_multi_tenant.Model.Platform.{External, Env}
use ai_saas_multi_tenant.Model.Action.{Call}
use ai_saas_multi_tenant.Auth.Tokens.{
  AuthUser, active_in, set_revoked, is_spent, new_token, revoke_family, revoke_one, create_refresh,
}

module _ (db : Prisma) where
  abbrev pub tokens : World db → List RefreshToken
  tokens w = db.rows w.refresh_tokens

  -- No token of the family can be exchanged any more.
  abbrev pub IsDead : RowId → World db → Type 0
  IsDead family w =
      (t : RefreshToken) → In t (tokens w) → t.family_id ≡ family → t.revoked_at ≢ none

  -- A family has at most one token that is not revoked.
  abbrev pub OneActive : World db → Type 0
  OneActive w =
      (s t : RefreshToken)
      → In s (tokens w)
      → In t (tokens w)
      → s.family_id ≡ t.family_id
      → s.revoked_at ≡ none
      → t.revoked_at ≡ none
      → s.id ≡ t.id

pub unspent : (now : Time) (t : RefreshToken) → is_spent now t ≡ false → t.revoked_at ≡ none
unspent now t good = ground arith

revoked_is_revoked :
    (now : Time) (family : RowId) (r t : RefreshToken)
    → t ≡ update_row (active_in family) (set_revoked now) r
    → t.family_id ≡ family
    → t.revoked_at ≢ none
revoked_is_revoked now family r t e same = ground arith

-- An update that only sets `revokedAt` leaves an active token as it was.
still_active :
    (now : Time) (p : RefreshToken → Bool) (r t : RefreshToken)
    → t ≡ update_row p (set_revoked now) r
    → t.revoked_at ≡ none
    → (t ≡ r) × (p r ≡ false)
still_active now p r t e active = elim (Bool-cases (p r)) [
  | inl hit ↦ absurd (ground arith)
  | inr miss ↦ (ground arith, miss)
]

module _ (x : External) (env : Env) (c : Call) {db : Prisma} where
  pub revoke_family-IsDead :
      (family : RowId) (w : World db) → IsDead db family (revoke_family x env c family w)
  revoke_family-IsDead family w t m same =
      let (r, n, e) = map-In _ (tokens db w) (rw (db.rows-update_many _ _ w.refresh_tokens) at m) in
      revoked_is_revoked c.now family r t e same

  -- A token that is active after an update of `revokedAt` was there, and was not selected.
  pub active_before :
      (p : RefreshToken → Bool) (w : World db) (t : RefreshToken)
      → In t (db.rows (db.update_many p (set_revoked c.now) w.refresh_tokens))
      → t.revoked_at ≡ none
      → In t (tokens db w) × (p t ≡ false)
  active_before p w t m active =
      let (r, n, e) = map-In _ (tokens db w) (rw (db.rows-update_many _ _ w.refresh_tokens) at m) in
      let (same, miss) = still_active c.now p r t e active in
      (subst (λ u. In u (tokens db w)) (sym same) n, subst (λ u. p u ≡ false) (sym same) miss)

  pub update-OneActive :
      (p : RefreshToken → Bool) (w : World db)
      → OneActive db w
      → OneActive db
          (record w { refresh_tokens = db.update_many p (set_revoked c.now) w.refresh_tokens })
  update-OneActive p w h s t ms mt same live_s live_t =
      h s t (active_before p w s ms live_s).0 (active_before p w t mt live_t).0 same live_s live_t

  -- Revoking the one active token of a family leaves none.
  pub revoke_one-IsDead :
      (existing : RefreshToken) (w : World db)
      → OneActive db w
      → In existing (tokens db w)
      → existing.revoked_at ≡ none
      → IsDead db existing.family_id (revoke_one x env c existing.id w)
  revoke_one-IsDead existing w h m active t n same at =
      let (before, miss) = active_before (λ t. t.id == existing.id) w t n at in
      let same_id : t.id ≡ existing.id = h t existing before m same at active in
      absurd (ground arith)

  -- A new token in a family with no active one.
  pub create_refresh-OneActive :
      (user : AuthUser) (family : RowId) (device : DeviceInfo) (w : World db)
      → OneActive db w
      → IsDead db family w
      → OneActive db (create_refresh x env c user family device w).1
  unfolding create_refresh
  create_refresh-OneActive user family device w h dead s t ms mt same live_s live_t =
      let new = new_token x env c user family device in
      let split = λ (r : RefreshToken) (m : In r (db.rows (db.create new w.refresh_tokens))).
        append-In (tokens db w) (rw (db.rows-create new w.refresh_tokens) at m) in
      elim (split s ms) [
        | inl old_s ↦ elim (split t mt) [
          | inl old_t ↦ h s t old_s old_t same live_s live_t
          | inr new_t ↦
              absurd (dead s old_s (same ∙ ap (λ (r : RefreshToken). r.family_id) new_t) live_s)
        ]
        | inr new_s ↦ elim (split t mt) [
          | inl old_t ↦
              absurd (dead t old_t (sym same ∙ ap (λ (r : RefreshToken). r.family_id) new_s) live_t)
          | inr new_t ↦ ap (λ (r : RefreshToken). r.id) (new_s ∙ sym new_t)
        ]
      ]
