-- ===== src/Tests.antt =====
-- A small tenant, and the theorems applied to it.
pub mod Fixture
mod Sessions
mod Access
mod Accounts
mod Boards
mod Demo
mod Drops
mod Members
mod Pages
mod Requests
mod Products
mod Refreshes
mod Slugs
mod Sockets
mod Uploads
