-- ===== src/Endpoint.antt =====
-- internal/endpoint: the HTTP entry points of the published flows.
pub mod Config
pub mod Manager
pub mod Check
pub mod Checking
pub mod Routes
pub mod Removal
pub mod Tracking
pub mod Keeps
pub mod Adding
pub mod Answers
pub mod Serving
pub mod Histories
pub mod Composite
mod Tests
