-- ===== src/Watch.antt =====
-- internal/watch/watch.go: the watcher, which reports a file once its content has settled.
pub mod Names
pub mod Entry
pub mod History
pub mod Steps
pub mod Scan
pub mod Found
pub mod Remembering
pub mod Settling
pub mod Reporting
mod Tests
