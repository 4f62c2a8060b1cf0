-- ===== src/Model/Platform.antt =====
-- The packages and settings that the services call, as parameters: node's crypto, bcryptjs, the
-- JWT service, `String.prototype.toLowerCase`, and config/env.ts once it is validated.
use ai_saas_multi_tenant.Base.{ℕ, Bool, Option, Text}
use ai_saas_multi_tenant.Model.Data.{RowId}

pub record External : Type 0 where
  pub sha256 : ℕ → ℕ
  pub lower_case : ℕ → ℕ
  -- the same on a text of which the characters matter
  pub lower_text : Text → Text
  pub bcrypt_hash : ℕ → ℕ
  pub bcrypt_compare : ℕ → ℕ → Bool
  -- the access token for a subject and an e-mail address, with a secret and a time to live
  pub jwt_sign : RowId → ℕ → ℕ → ℕ → ℕ
  -- the characters of an identifier
  pub id_text : RowId → Text

pub record Env : Type 0 where
  pub jwt_access_secret : ℕ
  pub jwt_access_ttl : ℕ
  -- seconds
  pub jwt_refresh_ttl : ℕ
  pub stripe_configured : Bool
  pub stripe_price_pro : Option ℕ
  pub stripe_price_business : Option ℕ
