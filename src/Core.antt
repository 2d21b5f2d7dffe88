-- ===== src/Core.antt =====
-- The shared vocabulary of the daemon (package core).
pub mod Error
pub mod State
pub mod Auth
