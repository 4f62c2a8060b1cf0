-- ===== src/Services.antt =====
-- The services behind the controllers: apps/api/src/common/audit and apps/api/src/modules.
pub mod Audit
pub mod Notifications
pub mod Orgs
pub mod Issues
pub mod Projects
pub mod Attachments
pub mod Billing
