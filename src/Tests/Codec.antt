-- ===== src/Tests/Codec.antt =====
-- The theorems about the codecs, at small inputs over the list buffer.
use mixlab.Prelude.{◌≡◌, ◌≤◌, ◌↔◌, refl, [], ◌∷◌, ◌++◌, arith}
use mixlab.Prelude.Result.{ok, panic}
use mixlab.Codec.Buf.{list_buf}
use mixlab.Codec.Avc.Nal
use mixlab.Codec.Avc.Nal.{
  NalUnit, sequence_parameter_set, picture_parameter_set, to_u8, try_from, parse_header,
  header_byte,
}
use mixlab.Codec.Avc.Nal.RoundTrip.{IsUnit, nal_round_trip, nal_rewritten, parse-panic}
use mixlab.Codec.Avc.Dcr
use mixlab.Codec.Avc.Dcr.{DecoderConfigurationRecord}
use mixlab.Codec.Avc.Dcr.RoundTrip.{IsValid, dcr_round_trip}

abbrev pub sps : NalUnit
sps = record { ref_idc = 3; kind = sequence_parameter_set; payload = 100 ∷ 0 ∷ 41 ∷ 7 ∷ [] }

abbrev pub pps : NalUnit
pps = record { ref_idc = 3; kind = picture_parameter_set; payload = 206 ∷ 60 ∷ [] }

abbrev dcr : DecoderConfigurationRecord
dcr = record {
  version = 1;
  profile_indication = 100;
  profile_compatibility = 0;
  level_indication = 41;
  nalu_size = 4;
  sps = sps ∷ [];
  pps = pps ∷ [];
}

dcr-IsValid : IsValid dcr
unfolding Nal.byte_size
dcr-IsValid = record {
  version = refl;
  profile_indication = omega arith;
  profile_compatibility = omega arith;
  level_indication = omega arith;
  nalu_size = omega arith;
  sps_count = omega arith;
  sps = omega arith;
  pps_count = omega arith;
  pps = omega arith;
}

dcr_written :
    Dcr.write_to list_buf dcr []
    ≡ 1 ∷ 100 ∷ 0 ∷ 41 ∷ 255 ∷ 225 ∷ 0 ∷ 5 ∷ 103 ∷ 100 ∷ 0 ∷ 41 ∷ 7 ∷ 1 ∷ 0 ∷ 3 ∷ 104 ∷ 206 ∷ 60
      ∷ []
unfolding Dcr.write_to Nal.write_to Nal.byte_size to_u8 list_buf
dcr_written = refl

nal_round_trip_example : Nal.parse list_buf (Nal.write_to list_buf sps []) ≡ ok sps
nal_round_trip_example = nal_round_trip list_buf sps (omega arith)

sps_parsed : Nal.parse list_buf (103 ∷ 100 ∷ []) ≡ ok (record sps { payload = 100 ∷ [] })
unfolding Nal.parse try_from list_buf
sps_parsed = refl

nal_rewritten_example :
    IsUnit (record sps { payload = 100 ∷ [] })
    × (Nal.write_to list_buf (record sps { payload = 100 ∷ [] }) [] ≡ 103 ∷ 100 ∷ [])
nal_rewritten_example =
    nal_rewritten list_buf (103 ∷ 100 ∷ []) (record sps { payload = 100 ∷ [] }) (omega arith)
      sps_parsed

parse-panic_example : (Nal.parse list_buf (231 ∷ 0 ∷ []) ≡ panic) ↔ (128 ≤ 231)
parse-panic_example = parse-panic list_buf 231 (0 ∷ [])

dcr_round_trip_example :
    Dcr.parse list_buf (Dcr.write_to list_buf dcr [] ++ 9 ∷ []) ≡ ok (dcr, 9 ∷ [])
dcr_round_trip_example = dcr_round_trip list_buf dcr (9 ∷ []) dcr-IsValid
