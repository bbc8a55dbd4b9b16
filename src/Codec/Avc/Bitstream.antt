-- ===== src/Codec/Avc/Bitstream.antt =====
-- codec/src/avc/bitstream.rs: units that each follow their length; and codec/src/avc/encode.rs as far
-- as it reads the header that the encoder gives in this form.
pub mod RoundTrip
use mixlab.Prelude.{
  ℕ, zero, suc, List, [], ◌∷◌, Option, none, some, length, ltb, ◌==◌, if◌then◌else◌,
}
use mixlab.Prelude.Result.{Result, ok, err, panic}
use mixlab.Codec.Buf.{Buf, Bytes}
use mixlab.Codec.Avc.{AvcError, not_enough_data}
use mixlab.Codec.Avc.Nal
use mixlab.Codec.Avc.Nal.{NalUnit, to_u8, sequence_parameter_set, picture_parameter_set}
use mixlab.Codec.Avc.Dcr.{DecoderConfigurationRecord}

module _ (buf : Buf) where
  abbrev pub take_unit : ℕ → Bytes → Option (Bytes × Bytes) → Result AvcError NalUnit × Bytes
  take_unit nalu_length bytes none = (panic, bytes)
  take_unit nalu_length bytes (some (nalu_data, rest)) = (Nal.parse buf nalu_data, rest)

  abbrev pub after_length : Bytes → Option (ℕ × Bytes) → Result AvcError NalUnit × Bytes
  after_length bytes none = (panic, bytes)
  after_length bytes (some (nalu_length, rest)) =
      if ltb (length rest) nalu_length
      then (err not_enough_data, rest)
      else take_unit nalu_length rest (buf.split_to nalu_length rest)

  -- One call of the closure: the item, and what is left in `bytes`.
  unfoldable pub next_unit : ℕ → Bytes → Option (Result AvcError NalUnit × Bytes)
  next_unit nalu_size bytes =
      if length bytes == 0
      then none
      else if ltb (length bytes) nalu_size
      then some (err not_enough_data, [])
      else some (after_length bytes (buf.get_uint nalu_size bytes))

  -- All items, on fuel; `none` when the fuel is used up before the end.
  unfoldable pub read : ℕ → ℕ → Bytes → Option (List (Result AvcError NalUnit))
  read zero nalu_size bytes = elim (next_unit nalu_size bytes) [ none ↦ some [] | some _ ↦ none ]
  read (suc fuel) nalu_size bytes = elim (next_unit nalu_size bytes) [
    | none ↦ some []
    | some (item, rest) ↦ elim (read fuel nalu_size rest) [
      | none ↦ none
      | some items ↦ some (item ∷ items)
    ]
  ]

  -- The record of the two parameter sets; the indices of `sps.data` are in range once its length is
  -- checked.
  abbrev pub record_of : NalUnit → NalUnit → Bytes → Result AvcError DecoderConfigurationRecord
  record_of sps pps (profile ∷ compatibility ∷ level ∷ _) = ok (record {
    version = 1;
    profile_indication = profile;
    profile_compatibility = compatibility;
    level_indication = level;
    nalu_size = 4;
    sps = sps ∷ [];
    pps = pps ∷ [];
  })
  record_of sps pps _ = panic

  abbrev pub with_pps :
      NalUnit
      → Option (Result AvcError NalUnit × Bytes)
      → Result AvcError DecoderConfigurationRecord
  with_pps sps (some (ok pps, rest)) =
      if to_u8 pps.kind == to_u8 picture_parameter_set then record_of sps pps sps.payload else panic
  with_pps sps _ = panic

  abbrev pub with_sps :
      Option (Result AvcError NalUnit × Bytes) → Result AvcError DecoderConfigurationRecord
  with_sps (some (ok sps, rest)) =
      if to_u8 sps.kind == to_u8 sequence_parameter_set
      then with_pps sps (next_unit 4 rest)
      else panic
  with_sps _ = panic

  -- `decoder_configuration_record`, from the extradata of the codec context.
  unfoldable pub decoder_configuration_record : Bytes → Result AvcError DecoderConfigurationRecord
  unfolding next_unit
  decoder_configuration_record extradata = with_sps (next_unit 4 extradata)
