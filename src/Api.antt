-- ===== src/Api.antt =====
-- The API as a whole: the requests of the controllers of apps/api/src/modules and the jobs of the
-- notification queue, served one after another.
pub mod Facets
pub mod Requests
pub mod Members
pub mod Accounts
pub mod Founding
pub mod Frames
pub mod Paying
pub mod Changes
pub mod Reach
pub mod Live
pub mod NewIssue
pub mod NewProject
