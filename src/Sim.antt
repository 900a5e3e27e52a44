-- ===== src/Sim.antt =====
-- internal/masso/sim: the simulated controller, which answers as a real one does.
pub mod State
pub mod Handlers
pub mod Stuck
mod Tests
