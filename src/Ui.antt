-- ===== src/Ui.antt =====
-- internal/ui/model: what the window shows.
pub mod Transfers
