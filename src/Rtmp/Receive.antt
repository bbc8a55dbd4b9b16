-- ===== src/Rtmp/Receive.antt =====
-- src/rtmp/mod.rs: what the receiver of a published stream does with each message of its session.
pub mod Timeline
pub mod Panics
pub mod Sound
use mixlab.Prelude.{
  ℕ, ◌+◌, ◌==◌, Bool, true, false, List, [], ◌∷◌, Option, none, some, if◌then◌else◌, ltb,
}
use mixlab.Prelude.Lists.{length}
use mixlab.Prelude.Int.{ℤ, pos}
use mixlab.Prelude.Result.{Result, ok, err, panic, ◌>>=◌}
use mixlab.Media.{Rational, MediaTime, MediaDuration, new_time, new_duration, after}
use mixlab.Codec.Buf.{Buf, Bytes, or_panic}
use mixlab.Codec.Aac.{
  AacError, AudioSpecificConfiguration, AudioDataTransportStream, parse_config, new_stream,
  into_bytes,
}
use mixlab.Rtmp.Packet.{
  AudioPacket, AudioPacketError, aac_sequence_header, aac_raw_data, parse_audio, VideoPacket,
  VideoPacketError, VideoPacketType, sequence_header, nalu, end_of_sequence, parse_video,
}

-- How the decoder's loop of received frames ends.
pub data RecvEnd (E : Type 0) : Type 0 where
  need_more_input : RecvEnd E
  eof : RecvEnd E
  codec : E → RecvEnd E

-- The decoders of fdk_aac and ffmpeg, the socket, and the sender of the source registry.
pub record Receiver (R : Rational) : Type 1 where
  pub Pcm : Type 0
  pub Picture : Type 0
  pub AudioDecoder : Type 0
  pub VideoDecoder : Type 0
  pub OpenError : Type 0
  pub AvError : Type 0
  pub SourceSend : Type 0
  pub Stream : Type 0
  -- the bytes consumed, or none where `fill` gives an error, which is unwrapped
  pub fill : AudioDecoder → Bytes → Option (ℕ × AudioDecoder)
  -- the frame, cut to its size, or none for an error
  pub decode_frame : AudioDecoder → Option (List Pcm) × AudioDecoder
  pub sample_rate : AudioDecoder → ℕ
  pub open_decoder : Bytes → Result OpenError VideoDecoder
  -- with the decode and the presentation timestamp; none where it is expected to succeed
  pub send_packet : VideoDecoder → ℕ → ℕ → Bytes → Option VideoDecoder
  -- the frames with their presentation timestamps, and how the loop ends
  pub recv_frames : VideoDecoder → List (ℤ × Picture) × RecvEnd AvError × VideoDecoder
  pub write_audio : SourceSend → MediaTime R → List Pcm → Option SourceSend
  -- the result is ignored
  pub write_video : SourceSend → MediaTime R → Picture → MediaDuration R → SourceSend
  pub write_all : Stream → Bytes → Option Stream
  -- `Ratio::recip`, which panics at zero
  pub recip : R.Q → Option R.Q

module _ {R : Rational} (V : Receiver R) where
  -- The errors of the handlers; those of the handshake and of the session are outside.
  pub data RtmpError : Type 0 where
    io metadata_not_yet_sent unsupported_stream source_send : RtmpError
    aac : AacError → RtmpError
    codec_open : V.OpenError → RtmpError
    av_codec : V.AvError → RtmpError

  pub record ReceiveContext : Type 0 where
    pub stream : V.Stream
    pub source : V.SourceSend
    -- StreamMeta
    pub video_frame_duration : Option (MediaDuration R)
    pub audio_codec : V.AudioDecoder
    pub audio_asc : Option AudioSpecificConfiguration
    pub audio_timestamp : MediaTime R
    pub video_codec : Option V.VideoDecoder

-- The events that are handled, with the frame rate in thousandths, and the others.
pub data ServerSessionEvent : Type 0 where
  audio_data_received : Bytes → ServerSessionEvent
  video_data_received : Bytes → ℕ → ServerSessionEvent
  stream_metadata_changed : Option ℤ → ServerSessionEvent
  other_event : ServerSessionEvent

pub data ServerSessionResult : Type 0 where
  outbound_response : Bytes → ServerSessionResult
  raised_event : ServerSessionEvent → ServerSessionResult
  unhandleable_message_received : ServerSessionResult

-- 1024 samples for each channel, at 44100 Hz.
unfoldable pub frame_time : {R : Rational} → MediaDuration R
unfolding new_duration
frame_time = new_duration (pos 1024) (pos 44100)

module _ {R : Rational} {V : Receiver R} where
  unfoldable pub write_frame :
      ReceiveContext V → List V.Pcm → Result (RtmpError V) (ReceiveContext V)
  unfolding frame_time
  write_frame ctx pcm = elim (V.write_audio ctx.source ctx.audio_timestamp pcm) [
    | none ↦ err source_send
    | some source ↦
        ok (record ctx { source = source; audio_timestamp = after ctx.audio_timestamp frame_time })
  ]

  -- From the decoder on, with the bytes it consumed of those it was given.
  unfoldable pub decode_audio :
      ReceiveContext V → Bytes → ℕ × V.AudioDecoder → Result (RtmpError V) (ReceiveContext V)
  unfolding write_frame
  decode_audio ctx adts (consumed, filled) =
      let (decoded, decoder) = V.decode_frame filled in
      let ctx' : ReceiveContext V = record ctx { audio_codec = decoder } in
      if ltb consumed (length adts)
      then ok (record ctx { audio_codec = filled })
      else elim decoded [
        | none ↦ ok ctx'
        | some pcm ↦ if V.sample_rate decoder == 44100 then write_frame ctx' pcm else panic
      ]

  unfoldable pub configured :
      ReceiveContext V
      → Result AacError AudioSpecificConfiguration
      → Result (RtmpError V) (ReceiveContext V)
  configured ctx (ok asc) = ok (record ctx { audio_asc = some asc })
  configured ctx (err e) = err (aac e)
  configured ctx panic = panic

module _ (buf : Buf) {R : Rational} {V : Receiver R} where
  unfoldable pub receive_raw : ReceiveContext V → Bytes → Result (RtmpError V) (ReceiveContext V)
  unfolding decode_audio
  receive_raw ctx bytes = elim ctx.audio_asc [
    | none ↦ ok ctx
    | some asc ↦ do
      adts ← or_panic (new_stream bytes asc)
      adts_bytes ← or_panic (into_bytes buf adts)
      filled ← or_panic (V.fill ctx.audio_codec adts_bytes)
      decode_audio ctx adts_bytes filled
  ]

  unfoldable pub receive_packet :
      ReceiveContext V
      → Result AudioPacketError AudioPacket
      → Result (RtmpError V) (ReceiveContext V)
  unfolding receive_raw configured
  receive_packet ctx (ok (aac_sequence_header bytes)) = configured ctx (parse_config buf bytes)
  receive_packet ctx (ok (aac_raw_data bytes)) = receive_raw ctx bytes
  receive_packet ctx (err e) = ok ctx
  receive_packet ctx panic = panic

  unfoldable pub receive_audio_packet :
      ReceiveContext V → Bytes → Result (RtmpError V) (ReceiveContext V)
  unfolding receive_packet
  receive_audio_packet ctx bytes = receive_packet ctx (parse_audio buf bytes)

module _ {R : Rational} (V : Receiver R) where
  unfoldable pub write_pictures :
      V.SourceSend → MediaDuration R → List (ℤ × V.Picture) → V.SourceSend
  unfolding new_time
  write_pictures source duration [] = source
  write_pictures source duration ((pts, picture) ∷ rest) =
      write_pictures (V.write_video source (new_time pts (pos 1000)) picture duration) duration rest

module _ {R : Rational} {V : Receiver R} where
  unfoldable pub after_frames :
      RecvEnd V.AvError → ReceiveContext V → Result (RtmpError V) (ReceiveContext V)
  after_frames need_more_input ctx = ok ctx
  after_frames eof ctx = panic
  after_frames (codec e) ctx = err (av_codec e)

  unfoldable pub receive_nalu :
      ReceiveContext V → MediaDuration R → VideoPacket → ℕ → Result (RtmpError V) (ReceiveContext V)
  unfolding write_pictures after_frames
  receive_nalu ctx duration packet dts = elim ctx.video_codec [
    | none ↦ ok ctx
    | some decoder ↦ elim (V.send_packet decoder dts (dts + packet.composition_time) packet.body) [
      | none ↦ panic
      | some sent ↦
          let (frames, end, left) = V.recv_frames sent in
          after_frames end (record ctx {
            video_codec = some left;
            source = write_pictures V ctx.source duration frames;
          })
    ]
  ]

  unfoldable pub opened :
      ReceiveContext V → Result V.OpenError V.VideoDecoder → Result (RtmpError V) (ReceiveContext V)
  opened ctx (ok decoder) = ok (record ctx { video_codec = some decoder })
  opened ctx (err e) = err (codec_open e)
  opened ctx panic = panic

  unfoldable pub receive_by_type :
      VideoPacketType
      → ReceiveContext V
      → MediaDuration R
      → VideoPacket
      → ℕ
      → Result (RtmpError V) (ReceiveContext V)
  unfolding receive_nalu opened
  receive_by_type sequence_header ctx duration packet dts = opened ctx (V.open_decoder packet.body)
  receive_by_type nalu ctx duration packet dts = receive_nalu ctx duration packet dts
  receive_by_type end_of_sequence ctx duration packet dts = ok ctx

  unfoldable pub receive_parsed :
      ReceiveContext V
      → MediaDuration R
      → ℕ
      → Result VideoPacketError VideoPacket
      → Result (RtmpError V) (ReceiveContext V)
  unfolding receive_by_type
  receive_parsed ctx duration dts (ok packet) =
      receive_by_type packet.packet_type ctx duration packet dts
  receive_parsed ctx duration dts (err e) = ok ctx
  receive_parsed ctx duration dts panic = panic

module _ (buf : Buf) {R : Rational} {V : Receiver R} where
  unfoldable pub receive_video_packet :
      ReceiveContext V → Bytes → ℕ → Result (RtmpError V) (ReceiveContext V)
  unfolding receive_parsed
  receive_video_packet ctx bytes timestamp = elim ctx.video_frame_duration [
    | none ↦ err metadata_not_yet_sent
    | some duration ↦ receive_parsed ctx duration timestamp (parse_video buf bytes)
  ]

  unfoldable pub handle_event :
      ReceiveContext V → ServerSessionEvent → Result (RtmpError V) (ReceiveContext V)
  unfolding receive_audio_packet receive_video_packet
  handle_event ctx (audio_data_received bytes) = receive_audio_packet buf ctx bytes
  handle_event ctx (video_data_received bytes timestamp) = receive_video_packet ctx bytes timestamp
  handle_event ctx (stream_metadata_changed none) = err unsupported_stream
  handle_event ctx (stream_metadata_changed (some frame_rate)) =
      elim (V.recip (R.ratio frame_rate (pos 1000))) [
        | none ↦ panic
        | some duration ↦
            ok (record ctx { video_frame_duration = some (record { value = duration }) })
      ]
  handle_event ctx other_event = ok ctx

  unfoldable pub handle_action :
      ReceiveContext V → ServerSessionResult → Result (RtmpError V) (ReceiveContext V)
  unfolding handle_event
  handle_action ctx (outbound_response bytes) = elim (V.write_all ctx.stream bytes) [
    | none ↦ err io
    | some stream ↦ ok (record ctx { stream = stream })
  ]
  handle_action ctx (raised_event event) = handle_event ctx event
  handle_action ctx unhandleable_message_received = ok ctx

  unfoldable pub handle_session_results :
      ReceiveContext V → List ServerSessionResult → Result (RtmpError V) (ReceiveContext V)
  unfolding handle_action
  handle_session_results ctx [] = ok ctx
  handle_session_results ctx (action ∷ actions) = do
    ctx' ← handle_action ctx action
    handle_session_results ctx' actions
