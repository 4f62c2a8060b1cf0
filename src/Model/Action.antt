-- ===== src/Model/Action.antt =====
-- An action of a handler: it changes the state and returns a value or throws an exception. What
-- was written before a throw stays written, except in a transaction.
use ai_saas_multi_tenant.Base.{ℕ, Bool, true, false, Option, none, some}
use ai_saas_multi_tenant.Prisma.{Prisma}
use ai_saas_multi_tenant.Model.Data.{RowId, Time}
use ai_saas_multi_tenant.Model.World.{World}

-- The exceptions of @nestjs/common that are thrown, and the client's own for a missing record and a
-- constraint of the database.
pub data Exception : Type 0 where
  bad_request unauthorized forbidden not_found conflict service_unavailable : Exception
  record_missing constraint_failed plain_error : Exception

pub data Result (A : Type 0) : Type 0 where
  ok : A → Result A
  throw : Exception → Result A

-- What the platform supplies to one request: the clock, the identifiers of the rows that it
-- creates, a random secret, and whether the audit table can be written.
pub record Call : Type 0 where
  pub now : Time
  pub ids : ℕ → RowId
  pub random : ℕ
  pub audit_up : Bool

module _ (db : Prisma) where
  abbrev pub Action : Type 0 → Type 0
  Action A = World db → Result A × World db

module _ {db : Prisma} {A : Type 0} where
  abbrev pub pure : A → Action db A
  pure a w = (ok a, w)

  abbrev pub raise : Exception → Action db A
  raise e w = (throw e, w)

  abbrev pub gets : (World db → A) → Action db A
  gets f w = (ok (f w), w)

  -- `if (!row) throw e`
  abbrev pub or_throw : Exception → Option A → Action db A
  or_throw e none w = (throw e, w)
  or_throw e (some a) w = (ok a, w)

  -- `$transaction`: a throw inside takes the writes back.
  abbrev pub transaction : Action db A → Action db A
  transaction m w = let (r, w') = m w in elim r [ ok a ↦ (ok a, w') | throw e ↦ (throw e, w) ]

module _ {db : Prisma} {A B : Type 0} where
  infixl 5 ◌>>=◌ ◌>>◌
  abbrev pub ◌>>=◌ : Action db A → (A → Action db B) → Action db B
  ◌>>=◌ m f w = let (r, w') = m w in elim r [ ok a ↦ f a w' | throw e ↦ (throw e, w') ]

  abbrev pub ◌>>◌ : Action db A → Action db B → Action db B
  m >> k = m >>= λ _. k

module _ {db : Prisma} where
  -- `if (test) throw e`
  abbrev pub throw_if : Bool → Exception → Action db (Unit {0})
  throw_if true e w = (throw e, w)
  throw_if false e w = (ok tt, w)

  abbrev pub modify : (World db → World db) → Action db (Unit {0})
  modify f w = (ok tt, f w)
