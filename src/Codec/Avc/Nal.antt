-- ===== src/Codec/Avc/Nal.antt =====
-- codec/src/avc/nal.rs: a network abstraction layer unit, read and written.
pub mod RoundTrip
use mixlab.Prelude.{ℕ, ◌+◌, bit_and, bit_or, ◌++◌, length, ltb, ◌==◌, if◌then◌else◌, Bool, ◌||◌}
use mixlab.Prelude.Bits.{shr, shl8}
use mixlab.Prelude.Result.{Result, ok, err, panic, ◌>>=◌}
use mixlab.Codec.Buf.{Buf, Bytes, or_panic}
use mixlab.Codec.Avc.{AvcError, not_enough_data, reserved_nal_unit_type, unknown_nal_unit_type}

pub data UnitType : Type 0 where
  non_idr_picture data_partition_a data_partition_b data_partition_c idr_picture : UnitType
  supplementary_enhancement_information sequence_parameter_set picture_parameter_set : UnitType
  access_unit_delimiter sequence_end stream_end filler_data : UnitType
  sequence_parameter_set_extension prefix sequence_parameter_subset : UnitType
  not_auxiliary_coded coded_slice_extension : UnitType

-- `self.kind as u8`.
unfoldable pub to_u8 : UnitType → ℕ
to_u8 non_idr_picture = 1
to_u8 data_partition_a = 2
to_u8 data_partition_b = 3
to_u8 data_partition_c = 4
to_u8 idr_picture = 5
to_u8 supplementary_enhancement_information = 6
to_u8 sequence_parameter_set = 7
to_u8 picture_parameter_set = 8
to_u8 access_unit_delimiter = 9
to_u8 sequence_end = 10
to_u8 stream_end = 11
to_u8 filler_data = 12
to_u8 sequence_parameter_set_extension = 13
to_u8 prefix = 14
to_u8 sequence_parameter_subset = 15
to_u8 not_auxiliary_coded = 19
to_u8 coded_slice_extension = 20

is_reserved : ℕ → Bool
is_reserved v = v == 16 || v == 17 || v == 18 || v == 22 || v == 23

unfoldable pub try_from : ℕ → Result AvcError UnitType
unfolding is_reserved
try_from v =
    if v == 1
    then ok non_idr_picture
    else if v == 2
    then ok data_partition_a
    else if v == 3
    then ok data_partition_b
    else if v == 4
    then ok data_partition_c
    else if v == 5
    then ok idr_picture
    else if v == 6
    then ok supplementary_enhancement_information
    else if v == 7
    then ok sequence_parameter_set
    else if v == 8
    then ok picture_parameter_set
    else if v == 9
    then ok access_unit_delimiter
    else if v == 10
    then ok sequence_end
    else if v == 11
    then ok stream_end
    else if v == 12
    then ok filler_data
    else if v == 13
    then ok sequence_parameter_set_extension
    else if v == 14
    then ok prefix
    else if v == 15
    then ok sequence_parameter_subset
    else if v == 19
    then ok not_auxiliary_coded
    else if v == 20
    then ok coded_slice_extension
    else if is_reserved v
    then err (reserved_nal_unit_type v)
    else err (unknown_nal_unit_type v)

-- `Unit`; the language has a type of that name.
pub record NalUnit : Type 0 where
  pub ref_idc : ℕ
  pub kind : UnitType
  pub payload : Bytes

unfoldable pub byte_size : NalUnit → ℕ
byte_size u = 1 + length u.payload

unfoldable pub parse_header : ℕ → Bytes → Result AvcError NalUnit
parse_header header rest =
    if shr header 7 == 0
    then (do
      kind ← try_from (bit_and header 0x1f)
      ok (record { ref_idc = bit_and (shr header 5) 0x03; kind = kind; payload = rest }))
    else panic

unfoldable pub header_byte : NalUnit → ℕ
header_byte u = bit_or (shl8 (bit_and u.ref_idc 0x03) 5) (bit_and (to_u8 u.kind) 0x1f)

module _ (buf : Buf) where
  -- `Unit::parse`; the `assert_eq!` on the top bit is a panic.
  unfoldable pub parse : Bytes → Result AvcError NalUnit
  unfolding parse_header
  parse bytes =
      if ltb (length bytes) 1
      then err not_enough_data
      else do (header, rest) ← or_panic (buf.get_u8 bytes); parse_header header rest

  -- `Unit::write_to`.
  unfoldable pub write_to : NalUnit → Bytes → Bytes
  unfolding header_byte
  write_to u out = buf.put_u8 out (header_byte u) ++ u.payload
