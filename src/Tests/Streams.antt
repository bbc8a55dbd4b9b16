-- ===== src/Tests/Streams.antt =====
-- Streams of H.264 units and AAC frames, over the list buffer.
use mixlab.Prelude.{
  none, ◌/◌, ◌%◌, ◌≡◌, ◌≤◌, refl, some, List, [], ◌∷◌, ◌++◌, map, length, true, false, arith,
}
use mixlab.Prelude.Result.{Result, ok}
use mixlab.Codec.Buf.{Bytes, list_buf, big_endian}
use mixlab.Codec.Avc.{AvcError}
use mixlab.Codec.Avc.Nal.{NalUnit, byte_size}
use mixlab.Codec.Avc.Dcr
use mixlab.Codec.Avc.Dcr.{DecoderConfigurationRecord}
use mixlab.Codec.Avc.Bitstream.{read, decoder_configuration_record}
use mixlab.Codec.Avc.Bitstream.RoundTrip.{prefixed, read_ends, read-prefixed, encoder_record}
use mixlab.Codec.Aac.{
  AudioSpecificConfiguration, AudioDataTransportStream, mpeg4, aac_low_complexity, parse_config,
  new_stream, into_bytes, object_type_to_u8,
}
use mixlab.Codec.Aac.Fields.{config_bits, config_round_trip}
use mixlab.Codec.Aac.Header.{read_header, adts_header}
use mixlab.Tests.Codec.{sps, pps}

-- The length is that of a longer unit, so the stream ends in an error.
read_ends_example :
    (items : List (Result AvcError NalUnit)) × (read list_buf 5 4 (0 ∷ 0 ∷ 0 ∷ 9 ∷ 103 ∷ [])
      ≡ some items)
    × (length items ≤ 5)
read_ends_example =
    read_ends list_buf 5 4 (0 ∷ 0 ∷ 0 ∷ 9 ∷ 103 ∷ []) (omega arith) (omega arith) (omega arith)

read-prefixed_example :
    read list_buf 2 4 (prefixed (sps ∷ pps ∷ []) []) ≡ some (map ok (sps ∷ pps ∷ []))
unfolding byte_size
read-prefixed_example =
    read-prefixed list_buf (sps ∷ pps ∷ [])
      ((omega arith, omega arith), ((omega arith, omega arith), tt))

encoder_record_example :
    (d : DecoderConfigurationRecord) × (decoder_configuration_record list_buf
        (prefixed (sps ∷ pps ∷ []) [])
      ≡ ok d)
    × (d.sps ≡ sps ∷ [])
    × (d.pps ≡ pps ∷ [])
    × (Dcr.parse list_buf (Dcr.write_to list_buf d [] ++ 9 ∷ []) ≡ ok (d, 9 ∷ []))
unfolding byte_size
encoder_record_example =
    encoder_record list_buf sps pps 100 0 41 (7 ∷ []) [] (9 ∷ []) refl refl refl
      (omega arith, omega arith, omega arith) (omega arith, omega arith) (omega arith, omega arith)

abbrev stereo_config : AudioSpecificConfiguration
stereo_config = record {
  object_type = aac_low_complexity;
  sampling_frequency_index = 4;
  channel_configuration = 2;
  frame_length_flag = false;
  depends_on_core_coder = false;
  extension_flag = true;
}

config_round_trip_example :
    parse_config list_buf
      (config_bits stereo_config / 256 ∷ config_bits stereo_config % 256 ∷ 0 ∷ [])
    ≡ ok stereo_config
config_round_trip_example =
    config_round_trip stereo_config
      (record { index_bits = omega arith; channel_bits = omega arith }) list_buf (0 ∷ [])

-- The bytes of the crate's own test.
adts_bytes :
    into_bytes list_buf (record {
      version = mpeg4;
      profile = 1;
      sampling_frequency_index = 2;
      channel_configuration = 2;
      crc = none;
      payload = 0x4e ∷ 0x2f ∷ 0x93 ∷ 0xf2 ∷ [];
    })
    ≡ some (0xff ∷ 0xf1 ∷ 0x48 ∷ 0x80 ∷ 0x01 ∷ 0x7f ∷ 0xfc ∷ 0x4e ∷ 0x2f ∷ 0x93 ∷ 0xf2 ∷ [])
unfolding into_bytes list_buf
adts_bytes = refl

abbrev forbidden_config : AudioSpecificConfiguration
forbidden_config = record stereo_config { sampling_frequency_index = 15 }

adts_header_example :
    (s : AudioDataTransportStream) × (header : Bytes) × (new_stream (1 ∷ 2 ∷ []) forbidden_config
      ≡ some s)
    × (into_bytes list_buf s ≡ some (header ++ 1 ∷ 2 ∷ []))
    × (length header ≡ 7)
    × (read_header (big_endian 0 header) ≡ record {
      sync_word = 0xfff;
      version_bit = 0;
      layer = 0;
      protection = 1;
      profile = 1;
      sampling_frequency_index = 15;
      private_bit = 0;
      channel_configuration = 2;
      zeros = 0;
      frame_length = 9;
      fullness = 0x7ff;
      frames_less_one = 0;
    })
    × (forbidden_config.sampling_frequency_index ≡ 15
        → (read_header (big_endian 0 header)).sampling_frequency_index ≡ 15)
unfolding object_type_to_u8
adts_header_example =
    adts_header list_buf forbidden_config (1 ∷ 2 ∷ []) (omega arith) (omega arith) (omega arith)
