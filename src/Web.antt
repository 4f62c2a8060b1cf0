-- ===== src/Web.antt =====
-- The board in the browser: apps/web.
pub mod Client
pub mod Flight
pub mod Observer
pub mod Upload
pub mod Cache
pub mod Sync
pub mod Drag
