-- ===== src/Api.antt =====
-- internal/api: the handlers of the HTTP interface.
pub mod Sync
pub mod World
pub mod Publishing
pub mod Flows
pub mod Groups
pub mod Users
pub mod Requests
pub mod Access
pub mod Serving
pub mod Refusals
mod Tests
