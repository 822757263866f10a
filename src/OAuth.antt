-- ===== src/OAuth.antt =====
-- internal/oauth: the OAuth authorization server.
pub mod Memory
pub mod Server
pub mod Register
pub mod Authorize
pub mod Token
pub mod Calls
pub mod Keeps
pub mod Registration
pub mod SingleUse
pub mod Pkce
pub mod Exchange
pub mod Grants
pub mod Granted
mod Tests
