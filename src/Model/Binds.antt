-- ===== src/Model/Binds.antt =====
-- Equations of the bind of actions.
use ai_saas_multi_tenant.Base.{◌≡◌, refl, sym, ap, ◌∙◌, arith}
use mathlib.Core.Path.{subst}
use ai_saas_multi_tenant.Prisma.{Prisma}
use ai_saas_multi_tenant.Model.World.{World}
use ai_saas_multi_tenant.Model.Action.{Action, Result, ok, throw, pure, ◌>>=◌}

-- A pure step behind an action leaves its state, and maps its value.
module _ {db : Prisma} {A B : Type 0} (m : Action db A) (f : A → B) (w : World db) where
  bind_pure : Result A × World db → Result B × World db
  bind_pure (ok a, w') = (ok (f a), w')
  bind_pure (throw e, w') = (throw e, w')

  bind_pure_lem : (m >>= (λ a. pure (f a))) w ≡ bind_pure (m w)
  unfolding bind_pure
  bind_pure_lem = same (m w)
    where
      same :
          (o : Result A × World db)
          → (let (r, w') = o in elim r [ ok a ↦ pure (f a) w' | throw e ↦ (throw e, w') ])
            ≡ bind_pure o
      same (ok a, w') = refl
      same (throw e, w') = refl

  pub bind_pure-state : ((m >>= (λ a. pure (f a))) w).1 ≡ (m w).1
  unfolding bind_pure
  bind_pure-state = ap (λ o. o.1) bind_pure_lem ∙ same (m w)
    where
      same : (o : Result A × World db) → (bind_pure o).1 ≡ o.1
      same (ok a, w') = refl
      same (throw e, w') = refl

  pub bind_pure-ok : (a : A) → (m w).0 ≡ ok a → ((m >>= (λ a. pure (f a))) w).0 ≡ ok (f a)
  unfolding bind_pure
  bind_pure-ok a e = ap (λ o. o.0) bind_pure_lem ∙ same (m w) e
    where
      same : (o : Result A × World db) → o.0 ≡ ok a → (bind_pure o).0 ≡ ok (f a)
      same (ok b, w') k = ground (arith, k)
      same (throw e, w') k = cc

  pub bind_pure-value :
      (b : B) → ((m >>= (λ a. pure (f a))) w).0 ≡ ok b → (a : A) × ((m w).0 ≡ ok a) × (f a ≡ b)
  unfolding bind_pure
  bind_pure-value b e = same (m w) (sym (ap (λ o. o.0) bind_pure_lem) ∙ e)
    where
      same : (o : Result A × World db) → (bind_pure o).0 ≡ ok b → (a : A) × (o.0 ≡ ok a) × (f a ≡ b)
      same (ok a, w') k = (a, refl, cc)
      same (throw e, w') k = cc

-- What an action returns is what its continuation goes on with.
pub bind-returns :
    {db : Prisma} {A B : Type 0} (m : Action db A) (f : A → Action db B) (w w' : World db) (a : A)
    → m w ≡ (ok a, w')
    → (m >>= f) w ≡ f a w'
bind-returns m f w w' a e =
    subst (λ o. (let (r, v) = o in elim r [ ok b ↦ f b v | throw t ↦ (throw t, v) ]) ≡ f a w')
      (sym e) refl
