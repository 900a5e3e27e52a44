-- ===== src/Engine.antt =====
-- internal/engine: when an upload may start, and what becomes of a file.
pub mod Gate
pub mod Queue
pub mod Sending
pub mod Archive
pub mod Dispatcher
pub mod Progress
pub mod Connection
mod Tests
