-- ===== src/Cpio.antt =====
-- src/cpio/: member headers (Header), hard links (Links, Policy), the parser's state (State), what
-- depends on the format (Format), and the incremental parser (Parser).
pub mod Header
pub mod Links
pub mod State
pub mod Policy
pub mod Format
pub mod Parser
