-- ===== src/Masso.antt =====
-- internal/masso: the codec of the UDP protocol between a client and a Masso controller.
pub mod Errors
pub mod Words
pub mod Frame
pub mod FileName
pub mod Request
pub mod Reply
pub mod Serial
pub mod Upload
mod Tests
