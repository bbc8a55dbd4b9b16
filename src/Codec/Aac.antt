-- ===== src/Codec/Aac.antt =====
-- codec/src/aac: the configuration of an AAC stream, and the ADTS header that is put before a frame.
pub mod Fields
pub mod Header
use mixlab.Prelude.{
  [], ℕ, ◌+◌, ◌-◌, ◌%◌, bit_and, bit_or, Bool, true, false, Option, none, some, List, ◌++◌, length,
  ltb, leb, ◌==◌, not, if◌then◌else◌,
}
use mixlab.Prelude.Bits.{shr, shl8, shl16}
use mixlab.Prelude.Result.{Result, ok, err, panic, ◌>>=◌}
use mixlab.Codec.Buf.{Bytes, Buf, or_panic}

pub data AacError : Type 0 where
  early_eof : AacError
  unsupported_audio_object_type : ℕ → AacError

pub data AudioObjectType : Type 0 where
  aac_main aac_low_complexity aac_scalable_sample_rate aac_long_term_prediction : AudioObjectType

-- `as u8`.
unfoldable pub object_type_to_u8 : AudioObjectType → ℕ
object_type_to_u8 aac_main = 1
object_type_to_u8 aac_low_complexity = 2
object_type_to_u8 aac_scalable_sample_rate = 3
object_type_to_u8 aac_long_term_prediction = 4

unfoldable pub try_from_u8 : ℕ → Result AacError AudioObjectType
try_from_u8 value =
    if value == 1
    then ok aac_main
    else if value == 2
    then ok aac_low_complexity
    else if value == 3
    then ok aac_scalable_sample_rate
    else if value == 4
    then ok aac_long_term_prediction
    else err (unsupported_audio_object_type value)

pub record AudioSpecificConfiguration : Type 0 where
  pub object_type : AudioObjectType
  pub sampling_frequency_index : ℕ
  pub channel_configuration : ℕ
  pub frame_length_flag : Bool
  pub depends_on_core_coder : Bool
  pub extension_flag : Bool

pub data Version : Type 0 where
  mpeg4 mpeg2 : Version

abbrev pub version_to_u16 : Version → ℕ
version_to_u16 mpeg4 = 0
version_to_u16 mpeg2 = 1

-- A string is the list of its bytes.
pub record AudioDataTransportStream : Type 0 where
  pub version : Version
  pub profile : ℕ
  pub sampling_frequency_index : ℕ
  pub channel_configuration : ℕ
  pub crc : Option (List ℕ)
  pub payload : Bytes

-- `AudioDataTransportStream::new`; `none` is the failed assertion.
unfoldable pub new_stream : Bytes → AudioSpecificConfiguration → Option AudioDataTransportStream
new_stream payload asc =
    if leb (length payload) (bit_and 65535 0x1fff)
    then some (record {
      version = mpeg4;
      profile = object_type_to_u8 asc.object_type - 1;
      sampling_frequency_index = asc.sampling_frequency_index;
      channel_configuration = asc.channel_configuration;
      crc = none;
      payload = payload;
    })
    else none

abbrev pub header_length : Option (List ℕ) → ℕ
header_length (some _) = 9
header_length none = 7

module _ (buf : Buf) where
  -- `AudioSpecificConfiguration::parse`.
  unfoldable pub parse_config : Bytes → Result AacError AudioSpecificConfiguration
  parse_config bytes = if ltb (length bytes) 2 then err early_eof else do
    (x, bytes') ← or_panic (buf.get_u8 bytes)
    (y, _) ← or_panic (buf.get_u8 bytes')
    object_type ← try_from_u8 (shr (bit_and x 0xf8) 3)
    ok (record {
      object_type = object_type;
      sampling_frequency_index = bit_or (shl8 (bit_and x 0x07) 1) (shr y 7);
      channel_configuration = bit_and (shr y 3) 0x0f;
      frame_length_flag = bit_and y 0x04 == 0x04;
      depends_on_core_coder = bit_and y 0x02 == 0x02;
      extension_flag = bit_and y 0x01 == 0x01;
    })

  -- `into_bytes`; `none` is the failed assertion on the shifted sampling frequency index.
  unfoldable pub into_bytes : AudioDataTransportStream → Option Bytes
  into_bytes s =
      let t1 = buf.put_u16 [] (bit_or (bit_or 0xfff0 (shl16 (version_to_u16 s.version) 3)) 0x01) in
      let sampling_frequency_index = shl8 s.sampling_frequency_index 2 in
      let channel_configuration1 = shr (bit_and s.channel_configuration 0x07) 2 in
      let t2 =
        buf.put_u8 t1
          (bit_or (bit_or (shl8 s.profile 6) sampling_frequency_index) channel_configuration1) in
      let frame_length = (length s.payload + header_length s.crc) % 65536 in
      let channel_configuration2 = shl8 (bit_and s.channel_configuration 0x03) 6 in
      let frame_length1 = shr (bit_and frame_length 0x1fff) 11 % 256 in
      let t3 = buf.put_u8 t2 (bit_or channel_configuration2 frame_length1) in
      let frame_length2 = shl16 (bit_and frame_length 0x7ff) 5 in
      let t4 = buf.put_u16 t3 (bit_or frame_length2 0x1f) in
      let t5 = buf.put_u8 t4 0xfc in
      if sampling_frequency_index == 0x0f then none else some (t5 ++ s.payload)
