-- ===== src/Terminal/Sessions/Registry.antt =====
-- The two dicts of services/terminal_sessions.py mirror each other, whatever happens.
pub mod Keeps
pub mod Methods
