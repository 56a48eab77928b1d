-- ===== src/Lib.antt =====
-- iluvatar: random access into compressed archives. An archive is decompressed once, front to back,
-- while a parser (tar, cpio or ar) reads the decompressed bytes for entries and a stream indexer
-- lays checkpoints of the decoder; the entries and the checkpoint table make an index. To read a
-- member, the decoder is restored at the nearest checkpoint before the member's data.
--
-- What models what (paths from the repository's root):
--   Errors            src/error.rs: the error enum. A formatted message is the name of what it says.
--   Archive           src/archive/{mod,entry,parser}.rs: formats, entries, events. Archive/Detect is
--                     src/archive/detect.rs (detect_archive_format).
--   Tar               src/tar/: Entry is entry.rs, Header is header.rs (parse_octal, parse_string,
--                     validate_checksum, parse_header, padded_size), State and Parser are parser.rs
--                     (feed_tar and the handlers it calls, feed, end_of_stream), Pax is its
--                     parse_pax_data.
--   Ar                src/ar/: Header is header.rs, Parser is parser.rs.
--   Cpio              src/cpio/: Header is header.rs (the newc and odc member headers); Links, State,
--                     Policy, Format and Parser are parser.rs (feed and the handlers it calls,
--                     apply_hardlink_policy, end_of_stream).
--   Compress          src/compress/mod.rs (CompressionFormat); Detect is detect.rs, None is none.rs.
--   Stream            src/stream/: Index is index.rs, the checkpoint table; Reader is reader.rs;
--                     Decoder is the interface of src/compress/decompressor.rs.
--   Index             src/index/: Store is entry.rs and store.rs, Builder is builder.rs.
--   Engine            src/engine/state_machine.rs: feed_to_parser, over the interface of the parsers,
--                     behind which Engine/Tar, Engine/Ar and Engine/Cpio put the three of them,
--                     with what the loop does on some of their inputs below them (Tar/Stalls,
--                     Cpio/Trailer); Indexing is drain_output and end_of_stream of its
--                     IndexingEngine, Read its ReadEngine.
--                     Request is src/engine/request.rs.
--   Common            the slice, string and number methods of Rust's standard library that the code
--                     calls, written out, with the lemmas about them.
--   Tests             concrete runs, and each theorem at a concrete input.
--
-- State and effects. A method on `&mut self` takes the parser and returns what it consumed, the
-- event, and the parser as the call leaves it, on errors too (`Fed` of Archive). A panic is an
-- outcome of its own, `panicked`. A method with a `match` and early returns is split at them: the
-- name `finish_x` is the part of `feed_x` behind its first step, and the state that the match took
-- apart is passed as arguments.
--
-- Numbers. Bytes and machine words are natural numbers. `usize` has 64 bits. Arithmetic that can
-- overflow is written with the wrap-around of a release build (add_u64, mul_u64, `%`), where a debug
-- build panics. A subtraction of lengths is written as it stands, and stops at 0.
--
-- Fuel. The loop over PAX records has one round per byte of the header data, and each round moves on
-- by at least one byte. The engine's loop has three rounds per byte of the chunk and those that the
-- parser's state may answer without a byte: a record of laws (Engine/Fuel, Progresses) bounds these
-- for each parser. A step of the stream reader has a round per byte of its input and per byte to skip.
--
-- The reader. A decoder is a parameter of the stream reader: a record of operations (Decompressor)
-- with a record of laws (Decodes), which say what its documentation does: a decoder at a position of
-- the content, given the compressed bytes that come next, answers the content's next bytes. Checkpoints
-- are ones from which it unpacks the rest (Marks). The caller is a relation (Delivers) that keeps to
-- the protocol: it answers requests with bytes of the stream from where they ask for them. The
-- decoder of stored data meets the laws.
--
-- Parameters. The checkpoint table and the index are over the types of codecs and decoder states,
-- which they store and do not look at.
--
-- Not modelled: the decoders of src/compress that decompress, the stream indexer of src/stream, step
-- and progress of the indexing engine, checkpoint strategies, index serialization, and the input and
-- output around them (src/sync, src/tokio, src/main.rs). Formatted error texts, capacities of vectors
-- and reference counts are left out, since no behaviour depends on them.
pub mod Common
pub mod Errors
pub mod Archive
pub mod Tar
pub mod Ar
pub mod Cpio
pub mod Compress
pub mod Stream
pub mod Index
pub mod Engine
pub mod Tests
