-- ===== src/Client.antt =====
-- internal/masso/client.go: the endpoint that speaks to one controller at a time.
pub mod State
pub mod Waiters
pub mod Routing
pub mod Running
pub mod Asking
pub mod Exchange
pub mod Requests
pub mod Connecting
pub mod ToolTable
pub mod Starting
pub mod StartBounds
pub mod StartAcks
pub mod Uploading
pub mod Aborting
mod Tests
