-- ===== src/Rtmp/Packet/RoundTrip.antt =====
-- A packet of src/rtmp/packet.rs is read back from its bytes.
use mixlab.Prelude.{
  le→leb, ℕ, ◌+◌, ◌*◌, ◌/◌, ◌%◌, ◌^◌, ◌≤◌, ◌<◌, ◌≡◌, refl, bit_and, bit_or, [], ◌∷◌, ◌++◌, length,
  arith, not_lt→ltb,
}
use mixlab.Prelude.Bits.{shr, shl8}
use mixlab.Prelude.Result.{ok}
use mixlab.Codec.Buf.{Buf, Bytes, big_endian}
use mixlab.Rtmp.Packet.{
  AudioPacket, aac_sequence_header, aac_raw_data, VideoPacket, VideoFrameType, VideoPacketType,
  parse_audio, write_audio_packet, parse_video, parse_rest, write_video_packet, frame_type_of,
  packet_type_of, frame_type_number, packet_type_number,
}

frame_type_of-number : (t : VideoFrameType) → frame_type_of (frame_type_number t) ≡ ok t
unfolding frame_type_of frame_type_number
frame_type_of-number = elim [ VideoFrameType.key_frame ↦ refl | _ ↦ refl ]

packet_type_of-number : (t : VideoPacketType) → packet_type_of (packet_type_number t) ≡ ok t
unfolding packet_type_of packet_type_number
packet_type_of-number = elim [ VideoPacketType.nalu ↦ refl | _ ↦ refl ]

-- The first byte of a video packet.
abbrev ident : VideoFrameType → ℕ
ident t = frame_type_number t * 16 + 7

ident_written : (t : VideoFrameType) → bit_or (shl8 (frame_type_number t) 4) 7 ≡ ident t
unfolding frame_type_number
ident_written = elim [ VideoFrameType.key_frame ↦ refl | _ ↦ refl ]

codec_read : (t : VideoFrameType) → bit_and (ident t) 0x0f ≡ 7
unfolding frame_type_number
codec_read = elim [ VideoFrameType.key_frame ↦ refl | _ ↦ refl ]

frame_type_number_le : (t : VideoFrameType) → frame_type_number t ≤ 5
unfolding frame_type_number
frame_type_number_le = elim [ VideoFrameType.key_frame ↦ omega arith | _ ↦ omega arith ]

packet_type_number_le : (t : VideoPacketType) → packet_type_number t ≤ 2
unfolding packet_type_number
packet_type_number_le = elim [ VideoPacketType.nalu ↦ omega arith | _ ↦ omega arith ]

abbrev time_bytes : ℕ → Bytes
time_bytes x = x / 65536 ∷ x / 256 % 256 ∷ x % 256 ∷ []

time_read : (x : ℕ) → big_endian 0 (time_bytes x) ≡ x
unfolding big_endian
time_read x = omega arith

module _ (buf : Buf) where
  -- An audio packet is read back from what `write_to` writes into an empty buffer.
  pub audio_round_trip : (p : AudioPacket) → parse_audio buf (write_audio_packet buf p []) ≡ ok p
  unfolding parse_audio write_audio_packet
  audio_round_trip (aac_sequence_header bytes) = rw (
    buf.put_u8_lem [] 0xaf (omega arith),
    buf.put_u8_lem (0xaf ∷ []) 0 (omega arith),
    le→leb 2 (length (0xaf ∷ 0 ∷ bytes)) (omega arith),
    buf.get_u8-cons,
    buf.get_u8-cons,
  )
  audio_round_trip (aac_raw_data bytes) = rw (
    buf.put_u8_lem [] 0xaf (omega arith),
    buf.put_u8_lem (0xaf ∷ []) 1 (omega arith),
    le→leb 2 (length (0xaf ∷ 1 ∷ bytes)) (omega arith),
    buf.get_u8-cons,
    buf.get_u8-cons,
  )

  abbrev packet_bytes : VideoPacket → Bytes
  packet_bytes p =
      ident p.frame_type
      ∷ packet_type_number p.packet_type
      ∷ (time_bytes p.composition_time ++ p.body)

  write_lem :
      (p : VideoPacket) → p.composition_time < 2 ^ 24 → write_video_packet buf p [] ≡ packet_bytes p
  unfolding write_video_packet
  write_lem p h = rw (
    ident_written p.frame_type,
    buf.put_u8_lem [] (ident p.frame_type) (omega (arith, frame_type_number_le p.frame_type)),
    buf.put_u8_lem (ident p.frame_type ∷ []) (packet_type_number p.packet_type)
        (omega (arith, packet_type_number_le p.packet_type)),
    buf.put_u24_lem (ident p.frame_type ∷ packet_type_number p.packet_type ∷ []) p.composition_time
        h,
  )

  parse_lem : (p : VideoPacket) → parse_video buf (packet_bytes p) ≡ ok p
  unfolding parse_video parse_rest
  parse_lem p =
      let e : shr (ident p.frame_type) 4 ≡ frame_type_number p.frame_type = omega arith in
      rw (
        not_lt→ltb (length (packet_bytes p)) 1 (omega arith),
        buf.get_u8-cons,
        e,
        frame_type_of-number p.frame_type,
        codec_read p.frame_type,
        not_lt→ltb
            (length (packet_type_number p.packet_type ∷ (time_bytes p.composition_time ++ p.body)))
            4 (omega arith),
        buf.get_u8-cons,
        packet_type_of-number p.packet_type,
        buf.get_uint-append (time_bytes p.composition_time) p.body (omega arith),
        time_read p.composition_time,
      )

  -- A video packet whose composition time fits in three bytes is read back from what `write_to`
  -- writes into an empty buffer.
  pub video_round_trip :
      (p : VideoPacket)
      → p.composition_time < 2 ^ 24
      → parse_video buf (write_video_packet buf p []) ≡ ok p
  video_round_trip p h = rw (write_lem p h) (parse_lem p)
