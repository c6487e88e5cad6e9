-- ===== src/Terminal/Search.antt =====
-- The search of terminal histories in services/terminal_sessions.py: which occurrences of a query
-- count as what kind of marker.
pub mod Offsets
pub mod Words
pub mod Tags
pub mod Payload
pub mod Tally
pub mod Hits
pub mod PayloadHits
mod Suffix
pub mod TagEnds
pub mod Separators
mod Wrappers
pub mod Census
pub mod WholeWords
pub mod Candidates
pub mod Ranking
mod Tests
