-- ===== src/Store.antt =====
-- internal/store: the documents, the backend, and one child for each of its files.
pub mod Docs
pub mod Backend
pub mod Exec
pub mod Records
pub mod Flow
pub mod Publish
pub mod Online
pub mod Trash
pub mod Group
pub mod GroupOrder
pub mod User
pub mod Usernames
pub mod UserCalls
pub mod Ops
pub mod WellFormed
pub mod Preservation
pub mod Spec
pub mod Sample
mod Tests
