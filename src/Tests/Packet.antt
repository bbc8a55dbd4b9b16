-- ===== src/Tests/Packet.antt =====
-- RTMP packets over the list buffer.
use mixlab.Prelude.{◌≡◌, refl, [], ◌∷◌, arith}
use mixlab.Prelude.Result.{ok, err}
use mixlab.Codec.Buf.{list_buf}
use mixlab.Rtmp.Packet.{
  VideoPacket, aac_raw_data, key_frame, nalu, parse_audio, write_audio_packet, parse_video,
  write_video_packet, bad_codec, frame_type_of,
}
use mixlab.Rtmp.Packet.RoundTrip.{audio_round_trip, video_round_trip}

audio_round_trip_example :
    parse_audio list_buf (write_audio_packet list_buf (aac_raw_data (1 ∷ 2 ∷ [])) [])
    ≡ ok (aac_raw_data (1 ∷ 2 ∷ []))
audio_round_trip_example = audio_round_trip list_buf (aac_raw_data (1 ∷ 2 ∷ []))

abbrev frame : VideoPacket
frame = record {
  frame_type = key_frame;
  packet_type = nalu;
  composition_time = 1000;
  body = 5 ∷ [];
}

video_round_trip_example : parse_video list_buf (write_video_packet list_buf frame []) ≡ ok frame
video_round_trip_example = video_round_trip list_buf frame (omega arith)

other_codec : parse_video list_buf (0x12 ∷ 0 ∷ []) ≡ err (bad_codec 2)
unfolding parse_video list_buf frame_type_of
other_codec = refl
