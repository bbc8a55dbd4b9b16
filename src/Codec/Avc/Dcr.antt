-- ===== src/Codec/Avc/Dcr.antt =====
-- codec/src/avc/dcr.rs: the decoder configuration record, read and written.
pub mod RoundTrip
use mixlab.Prelude.{
  ℕ, zero, suc, ◌+◌, ◌-◌, ◌%◌, bit_and, bit_or, List, [], ◌∷◌, ◌++◌, length, ltb, ◌==◌,
  if◌then◌else◌,
}
use mixlab.Prelude.Result.{Result, ok, err, ◌>>=◌}
use mixlab.Codec.Buf.{Buf, Bytes, or_panic}
use mixlab.Codec.Avc.{AvcError, not_enough_data, unsupported_configuration_record_version}
use mixlab.Codec.Avc.Nal
use mixlab.Codec.Avc.Nal.{NalUnit, byte_size}

pub record DecoderConfigurationRecord : Type 0 where
  pub version : ℕ
  pub profile_indication : ℕ
  pub profile_compatibility : ℕ
  pub level_indication : ℕ
  pub nalu_size : ℕ
  pub sps : List NalUnit
  pub pps : List NalUnit

module _ (buf : Buf) where
  -- One turn of either loop of `parse`: a length in two bytes, and a unit of that length.
  unfoldable pub parse_unit : Bytes → Result AvcError (NalUnit × Bytes)
  parse_unit bytes = if ltb (length bytes) 2 then err not_enough_data else do
    (size, bytes') ← or_panic (buf.get_u16 bytes)
    if ltb (length bytes') size then err not_enough_data else do
      (unit, rest) ← or_panic (buf.split_to size bytes')
      parsed ← Nal.parse buf unit
      ok (parsed, rest)

  -- `for _ in 0..count`, pushing to a vector.
  unfoldable pub parse_units : ℕ → List NalUnit → Bytes → Result AvcError (List NalUnit × Bytes)
  parse_units zero units bytes = ok (units, bytes)
  parse_units (suc count) units bytes = do
    (unit, rest) ← parse_unit bytes
    parse_units count (units ++ unit ∷ []) rest

  unfoldable pub parse_pps :
      DecoderConfigurationRecord → Bytes → Result AvcError (DecoderConfigurationRecord × Bytes)
  parse_pps dcr bytes = if ltb (length bytes) 1 then err not_enough_data else do
    (count, bytes') ← or_panic (buf.get_u8 bytes)
    (pps, rest) ← parse_units count [] bytes'
    ok (record dcr { pps = pps }, rest)

  -- `parse`: the record, and what is left of the buffer.
  unfoldable pub parse : Bytes → Result AvcError (DecoderConfigurationRecord × Bytes)
  unfolding parse_pps
  parse b0 = if ltb (length b0) 6 then err not_enough_data else do
    (version, b1) ← or_panic (buf.get_u8 b0)
    if version == 1
        then (do
          (profile, b2) ← or_panic (buf.get_u8 b1)
          (compatibility, b3) ← or_panic (buf.get_u8 b2)
          (level, b4) ← or_panic (buf.get_u8 b3)
          (sizes, b5) ← or_panic (buf.get_u8 b4)
          (counts, b6) ← or_panic (buf.get_u8 b5)
          (sps, b7) ← parse_units (bit_and counts 0x1f) [] b6
          parse_pps
              (record {
                version = version;
                profile_indication = profile;
                profile_compatibility = compatibility;
                level_indication = level;
                nalu_size = bit_and sizes 0x03 + 1;
                sps = sps;
                pps = [];
              })
              b7)
        else err (unsupported_configuration_record_version version)

  -- One loop of `write_to`.
  unfoldable pub write_units : List NalUnit → Bytes → Bytes
  write_units [] out = out
  write_units (u ∷ us) out =
      write_units us (Nal.write_to buf u (buf.put_u16 out (byte_size u % 65536)))

  -- The subtraction from `nalu_size` wraps, as in a release build.
  unfoldable pub write_to : DecoderConfigurationRecord → Bytes → Bytes
  unfolding write_units
  write_to d o0 =
      let o1 = buf.put_u8 o0 d.version in
      let o2 = buf.put_u8 o1 d.profile_indication in
      let o3 = buf.put_u8 o2 d.profile_compatibility in
      let o4 = buf.put_u8 o3 d.level_indication in
      let nalu_size = bit_and ((d.nalu_size + 256 - 1) % 256) 0x03 in
      let o5 = buf.put_u8 o4 (bit_or 0xfc nalu_size) in
      let sps_count = bit_and (length d.sps % 256) 0x1f in
      let o6 = buf.put_u8 o5 (bit_or 0xe0 sps_count) in
      let o7 = write_units d.sps o6 in
      let o8 = buf.put_u8 o7 (length d.pps % 256) in write_units d.pps o8
