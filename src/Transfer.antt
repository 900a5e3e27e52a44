-- ===== src/Transfer.antt =====
-- An upload as a whole: the sender of internal/masso/upload.go and the controller of
-- internal/masso/sim over a network that loses, repeats and reorders datagrams.
pub mod System
pub mod Server
pub mod Replies
pub mod Client
pub mod Rounds
pub mod Start
pub mod Safety
mod Tests
