-- ===== src/Tar.antt =====
-- src/tar/: entry types (Entry), header blocks (Header), the parser's state (State), PAX records
-- (Pax) and the incremental parser (Parser).
pub mod Entry
pub mod Header
pub mod State
pub mod Pax
pub mod Parser
