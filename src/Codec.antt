-- ===== src/Codec.antt =====
-- The crate under codec/: the parts of it that read and write bytes.
pub mod Picture
pub mod Buf
pub mod Avc
pub mod Aac
