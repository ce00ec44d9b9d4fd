-- ===== src/Formats/Protobuf.antt =====
-- formats/protobuf: descriptors as the code reads them, the walks over them, and the comparison of
-- two schemas.
pub mod Descriptor
pub mod Walk
pub mod Diff
pub mod Compare
pub mod Names
