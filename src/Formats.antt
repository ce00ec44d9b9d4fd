-- ===== src/Formats.antt =====
-- formats/: the schema formats, and what core/schema sees of them.
pub mod Protobuf
pub mod Parsed
