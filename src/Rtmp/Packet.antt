-- ===== src/Rtmp/Packet.antt =====
-- src/rtmp/packet.rs: audio and video packets, read and written.
pub mod RoundTrip
use mixlab.Prelude.{ℕ, ◌+◌, bit_and, bit_or, List, ◌++◌, length, ltb, leb, ◌==◌, if◌then◌else◌}
use mixlab.Prelude.Bits.{shr, shl8}
use mixlab.Prelude.Result.{Result, ok, err, ◌>>=◌}
use mixlab.Codec.Buf.{Buf, Bytes, or_panic}

pub data AudioPacket : Type 0 where
  aac_sequence_header aac_raw_data : Bytes → AudioPacket

pub data AudioPacketError : Type 0 where
  eof : AudioPacketError
  bad_tag bad_packet_type : ℕ → AudioPacketError

pub data VideoFrameType : Type 0 where
  key_frame inter_frame disposable_inter_frame generated_key_frame video_info_frame : VideoFrameType

pub data VideoPacketError : Type 0 where
  video_eof : VideoPacketError
  bad_frame_type bad_codec bad_video_packet_type : ℕ → VideoPacketError

pub data VideoPacketType : Type 0 where
  sequence_header nalu end_of_sequence : VideoPacketType

-- `body` is the field data.
pub record VideoPacket : Type 0 where
  pub frame_type : VideoFrameType
  pub packet_type : VideoPacketType
  pub composition_time : ℕ
  pub body : Bytes

unfoldable pub frame_type_of : ℕ → Result VideoPacketError VideoFrameType
frame_type_of x =
    if x == 1
    then ok key_frame
    else if x == 2
    then ok inter_frame
    else if x == 3
    then ok disposable_inter_frame
    else if x == 4
    then ok generated_key_frame
    else if x == 5
    then ok video_info_frame
    else err (bad_frame_type x)

unfoldable pub packet_type_of : ℕ → Result VideoPacketError VideoPacketType
packet_type_of x =
    if x == 0
    then ok sequence_header
    else if x == 1
    then ok nalu
    else if x == 2
    then ok end_of_sequence
    else err (bad_video_packet_type x)

unfoldable pub frame_type_number : VideoFrameType → ℕ
frame_type_number key_frame = 1
frame_type_number inter_frame = 2
frame_type_number disposable_inter_frame = 3
frame_type_number generated_key_frame = 4
frame_type_number video_info_frame = 5

unfoldable pub packet_type_number : VideoPacketType → ℕ
packet_type_number sequence_header = 0
packet_type_number nalu = 1
packet_type_number end_of_sequence = 2

abbrev pub audio_body : ℕ → Bytes → Result AudioPacketError AudioPacket
audio_body packet_type bytes =
    if packet_type == 0
    then ok (aac_sequence_header bytes)
    else if packet_type == 1
    then ok (aac_raw_data bytes)
    else err (bad_packet_type packet_type)

module _ (buf : Buf) where
  -- `AudioPacket::parse`.
  unfoldable pub parse_audio : Bytes → Result AudioPacketError AudioPacket
  parse_audio b0 =
      if leb 2 (length b0)
      then (do
        (tag, b1) ← or_panic (buf.get_u8 b0)
        if tag == 0xaf
            then (do (packet_type, b2) ← or_panic (buf.get_u8 b1); audio_body packet_type b2)
            else err (bad_tag tag))
      else err eof

  -- `AudioPacket::write_to`.
  unfoldable pub write_audio_packet : AudioPacket → Bytes → Bytes
  write_audio_packet (aac_sequence_header bytes) out = buf.put_u8 (buf.put_u8 out 0xaf) 0 ++ bytes
  write_audio_packet (aac_raw_data bytes) out = buf.put_u8 (buf.put_u8 out 0xaf) 1 ++ bytes

  -- `VideoPacket::parse` after the first byte; a number of three bytes fits in 32 bits.
  unfoldable pub parse_rest : VideoFrameType → Bytes → Result VideoPacketError VideoPacket
  parse_rest frame_type b1 = if ltb (length b1) 4 then err video_eof else do
    (kind, b2) ← or_panic (buf.get_u8 b1)
    packet_type ← packet_type_of kind
    (composition_time, body) ← or_panic (buf.get_uint 3 b2)
    ok (record {
      frame_type = frame_type;
      packet_type = packet_type;
      composition_time = composition_time;
      body = body;
    })

  -- `VideoPacket::parse`.
  unfoldable pub parse_video : Bytes → Result VideoPacketError VideoPacket
  unfolding parse_rest
  parse_video b0 = if ltb (length b0) 1 then err video_eof else do
    (ident, b1) ← or_panic (buf.get_u8 b0)
    frame_type ← frame_type_of (shr ident 4)
    if bit_and ident 0x0f == 7
        then parse_rest frame_type b1
        else err (bad_codec (bit_and ident 0x0f))

  -- `VideoPacket::write_to`.
  unfoldable pub write_video_packet : VideoPacket → Bytes → Bytes
  write_video_packet p out =
      let o1 = buf.put_u8 out (bit_or (shl8 (frame_type_number p.frame_type) 4) 7) in
      let o2 = buf.put_u8 o1 (packet_type_number p.packet_type) in
      let o3 = buf.put_uint 3 o2 p.composition_time in o3 ++ p.body
