-- ===== src/Mqtt.antt =====
-- internal/mqttendpoint: the MQTT clients of the flows.
pub mod Config
pub mod Helpers
pub mod Connections
pub mod Sessions
pub mod Adding
pub mod Sync
pub mod Manager
pub mod Dispatch
pub mod Counting
pub mod Keeps
pub mod Calls
pub mod Keys
pub mod Drafts
pub mod Closing
pub mod Open
pub mod Clients
pub mod Unmounting
pub mod Registering
pub mod Mounting
pub mod Live
mod Tests
