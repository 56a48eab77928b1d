-- ===== src/Ar.antt =====
-- src/ar/: member headers (Header) and the incremental parser (Parser).
pub mod Header
pub mod Parser
