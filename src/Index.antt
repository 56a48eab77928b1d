-- ===== src/Index.antt =====
-- src/index/: index entries and the archive index (Store), and its builder (Builder).
pub mod Store
pub mod Builder
