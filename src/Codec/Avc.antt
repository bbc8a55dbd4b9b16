-- ===== src/Codec/Avc.antt =====
-- codec/src/avc: H.264 units, the configuration record, and the length-prefixed bit stream.
pub mod Nal
pub mod Dcr
pub mod Bitstream
use mixlab.Prelude.{ℕ}

-- `AvcError` of codec/src/avc/mod.rs.
pub data AvcError : Type 0 where
  not_enough_data : AvcError
  unsupported_configuration_record_version : ℕ → AvcError
  reserved_nal_unit_type : ℕ → AvcError
  unknown_nal_unit_type : ℕ → AvcError
  no_sps : AvcError
