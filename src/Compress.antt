-- ===== src/Compress.antt =====
-- src/compress/mod.rs: the compression formats. Detection is in Detect.
pub mod Detect
pub mod None

-- `CompressionFormat`
pub data CompressionFormat : Type 0 where
  uncompressed gzip bzip2 xz zstd : CompressionFormat
