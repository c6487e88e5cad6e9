-- ===== src/Terminal.antt =====
-- services/terminal_sessions.py.
pub mod Search
pub mod History
pub mod Sessions
pub mod Persistence
pub mod Timeline
