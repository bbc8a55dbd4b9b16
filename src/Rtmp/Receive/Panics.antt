-- ===== src/Rtmp/Receive/Panics.antt =====
-- A packet of sound that stops the receiver of src/rtmp/mod.rs.
use mixlab.Prelude.{◌≡◌, ◌<◌, refl, [], Option, some, not_le→leb}
use mixlab.Prelude.Lists.{length}
use mixlab.Prelude.Result.{panic}
use mixlab.Media.{Rational}
use mixlab.Codec.Buf.{Buf, Bytes}
use mixlab.Codec.Aac.{AudioSpecificConfiguration, new_stream}
use mixlab.Rtmp.Packet.{aac_raw_data, write_audio_packet}
use mixlab.Rtmp.Packet.RoundTrip.{audio_round_trip}
use mixlab.Rtmp.Receive.{
  Receiver, ReceiveContext, receive_audio_packet, receive_packet, receive_raw,
}

too_long :
    (bytes : Bytes) (asc : AudioSpecificConfiguration)
    → 8191 < length bytes
    → new_stream bytes asc ≡ Option.none
unfolding new_stream
too_long bytes asc h = rw (new_stream, not_le→leb (length bytes) 8191 h) refl

module _ {R : Rational} {V : Receiver R} where
  -- After a configuration of the sound was received, a well-formed packet with more than 8191 bytes
  -- of encoded sound makes the receiver panic: they do not fit into the header that is put before
  -- them, which is asserted.
  pub long_packet-panic :
      (buf : Buf) (ctx : ReceiveContext V) (bytes : Bytes) (asc : AudioSpecificConfiguration)
      → ctx.audio_asc ≡ some asc
      → 8191 < length bytes
      → receive_audio_packet buf ctx (write_audio_packet buf (aac_raw_data bytes) []) ≡ panic
  unfolding receive_audio_packet receive_packet receive_raw
  long_packet-panic buf ctx bytes asc configured h =
      rw
        (
          receive_audio_packet,
          audio_round_trip buf (aac_raw_data bytes),
          receive_packet,
          receive_raw,
          configured,
          too_long bytes asc h,
        )
        refl
