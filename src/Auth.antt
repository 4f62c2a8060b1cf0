-- ===== src/Auth.antt =====
-- Authentication: apps/api/src/modules/auth. `Tokens` is token.service.ts, `Accounts` is auth.service.ts.
pub mod Tokens
pub mod Families
pub mod Rotation
pub mod Replay
pub mod Interleaved
pub mod Slugs
pub mod Accounts
pub mod Registration
pub mod Cookies
