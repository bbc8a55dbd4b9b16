-- ===== src/Rtmp/Receive/Timeline.antt =====
-- The times of the sound that src/rtmp/mod.rs passes on.
use mixlab.Prelude.{
  ℕ, ◌+◌, ◌≡◌, refl, subst, ◌∙◌, List, [], ◌∷◌, none, some, Option-cases, inl, inr,
}
use mixlab.Prelude.Int.{ℤ, pos}
use mixlab.Prelude.Result.{Result, ok, err, panic, bind_ok}
use mixlab.Media.{Rational, MediaDuration}
use mixlab.Codec.Buf.{Buf, Bytes}
use mixlab.Rtmp.Packet.{
  parse_audio, VideoPacket, VideoPacketType, sequence_header, nalu, end_of_sequence, parse_video,
  VideoPacketError,
}
use mixlab.Rtmp.Receive.{
  Receiver, ReceiveContext, RtmpError, RecvEnd, need_more_input, eof, codec, ServerSessionEvent,
  audio_data_received, video_data_received, stream_metadata_changed, other_event,
  ServerSessionResult, outbound_response, raised_event, unhandleable_message_received, opened,
  receive_parsed, receive_audio_packet, write_pictures, after_frames, receive_nalu, receive_by_type,
  receive_video_packet, handle_event, handle_action, handle_session_results,
}
use mixlab.Rtmp.Receive.Sound.{
  SentLaws, Advances, unsent, Advances-then, IsStep, receive_packet-IsStep,
}

module _ {R : Rational} {V : Receiver R} (laws : SentLaws V) where
  write_pictures-log :
      (source : V.SourceSend) (d : MediaDuration R) (frames : List (ℤ × V.Picture))
      → laws.log (write_pictures V source d frames) ≡ laws.log source
  unfolding write_pictures
  write_pictures-log source d [] = refl
  write_pictures-log source d ((pts, picture) ∷ rest) =
      write_pictures-log (V.write_video source _ picture d) d rest ∙ laws.showed source _ picture d

  after_frames-IsStep :
      (end : RecvEnd V.AvError) (ctx ctx' : ReceiveContext V)
      → Advances laws ctx ctx'
      → IsStep laws ctx (after_frames end ctx')
  unfolding after_frames
  after_frames-IsStep need_more_input ctx ctx' h = h
  after_frames-IsStep eof ctx ctx' h = tt
  after_frames-IsStep (codec e) ctx ctx' h = tt

  receive_nalu-IsStep :
      (ctx : ReceiveContext V) (d : MediaDuration R) (packet : VideoPacket) (dts : ℕ)
      → IsStep laws ctx (receive_nalu ctx d packet dts)
  unfolding receive_nalu
  receive_nalu-IsStep ctx d packet dts = elim (Option-cases ctx.video_codec) [
    | inl e ↦ rw (receive_nalu, e) (unsent laws ctx ctx refl refl)
    | inr (decoder, e) ↦
        elim (Option-cases
          (V.send_packet decoder dts (dts + packet.composition_time) packet.body)) [
            | inl e' ↦ rw (receive_nalu, e, e') tt
            | inr (given, e') ↦
                let (frames, end, left) = V.recv_frames given in
                let ctx' : ReceiveContext V = record ctx {
                  video_codec = some left;
                  source = write_pictures V ctx.source d frames;
                } in
                rw (receive_nalu, e, e')
                  (after_frames-IsStep end ctx ctx'
                    (unsent laws ctx ctx' (write_pictures-log ctx.source d frames) refl))
          ]
  ]

  opened-IsStep :
      (ctx : ReceiveContext V) (result : Result V.OpenError V.VideoDecoder)
      → IsStep laws ctx (opened ctx result)
  unfolding opened
  opened-IsStep ctx (ok decoder) =
      unsent laws ctx (record ctx { video_codec = some decoder }) refl refl
  opened-IsStep ctx (err e) = tt
  opened-IsStep ctx panic = tt

  receive_by_type-IsStep :
      (kind : VideoPacketType) (ctx : ReceiveContext V) (d : MediaDuration R) (packet : VideoPacket)
      (dts : ℕ)
      → IsStep laws ctx (receive_by_type kind ctx d packet dts)
  unfolding receive_by_type
  receive_by_type-IsStep sequence_header ctx d packet dts =
      opened-IsStep ctx (V.open_decoder packet.body)
  receive_by_type-IsStep nalu ctx d packet dts = receive_nalu-IsStep ctx d packet dts
  receive_by_type-IsStep end_of_sequence ctx d packet dts = unsent laws ctx ctx refl refl

  receive_parsed-IsStep :
      (ctx : ReceiveContext V) (d : MediaDuration R) (dts : ℕ)
      (parsed : Result VideoPacketError VideoPacket)
      → IsStep laws ctx (receive_parsed ctx d dts parsed)
  unfolding receive_parsed
  receive_parsed-IsStep ctx d dts (ok packet) =
      receive_by_type-IsStep packet.packet_type ctx d packet dts
  receive_parsed-IsStep ctx d dts (err e) = unsent laws ctx ctx refl refl
  receive_parsed-IsStep ctx d dts panic = tt

  receive_video_packet-IsStep :
      (buf : Buf) (ctx : ReceiveContext V) (bytes : Bytes) (timestamp : ℕ)
      → IsStep laws ctx (receive_video_packet buf ctx bytes timestamp)
  unfolding receive_video_packet
  receive_video_packet-IsStep buf ctx bytes timestamp =
      elim (Option-cases ctx.video_frame_duration) [
        | inl e ↦ rw (receive_video_packet, e) tt
        | inr (d, e) ↦
            rw (receive_video_packet, e)
              (receive_parsed-IsStep ctx d timestamp (parse_video buf bytes))
      ]

  handle_event-IsStep :
      (buf : Buf) (ctx : ReceiveContext V) (event : ServerSessionEvent)
      → IsStep laws ctx (handle_event buf ctx event)
  unfolding handle_event receive_audio_packet
  handle_event-IsStep buf ctx (audio_data_received bytes) =
      receive_packet-IsStep laws buf ctx (parse_audio buf bytes)
  handle_event-IsStep buf ctx (video_data_received bytes timestamp) =
      receive_video_packet-IsStep buf ctx bytes timestamp
  handle_event-IsStep buf ctx (stream_metadata_changed none) = tt
  handle_event-IsStep buf ctx (stream_metadata_changed (some frame_rate)) =
      elim (Option-cases (V.recip (R.ratio frame_rate (pos 1000)))) [
        | inl e ↦ rw (handle_event, e) tt
        | inr (d, e) ↦
            rw (handle_event, e)
              (unsent laws ctx (record ctx { video_frame_duration = some (record { value = d }) })
                refl refl)
      ]
  handle_event-IsStep buf ctx other_event = unsent laws ctx ctx refl refl

  handle_action-IsStep :
      (buf : Buf) (ctx : ReceiveContext V) (action : ServerSessionResult)
      → IsStep laws ctx (handle_action buf ctx action)
  unfolding handle_action
  handle_action-IsStep buf ctx (outbound_response bytes) =
      elim (Option-cases (V.write_all ctx.stream bytes)) [
        | inl e ↦ rw (handle_action, e) tt
        | inr (stream, e) ↦
            rw (handle_action, e) (unsent laws ctx (record ctx { stream = stream }) refl refl)
      ]
  handle_action-IsStep buf ctx (raised_event event) = handle_event-IsStep buf ctx event
  handle_action-IsStep buf ctx unhandleable_message_received = unsent laws ctx ctx refl refl

  step_of :
      (ctx ctx' : ReceiveContext V) (result : Result (RtmpError V) (ReceiveContext V))
      → result ≡ ok ctx'
      → IsStep laws ctx result
      → Advances laws ctx ctx'
  step_of ctx ctx' result e h = subst (IsStep laws ctx) e h

  -- When the handlers have gone through the results of a session without an error, the sound they
  -- wrote to the source follows on: each frame is written with the time at which the one before it
  -- ended, the first with the time of the context, and the context is left at the end of the last.
  -- The sender is one to which only writing sound adds sound.
  pub sound_follows_on :
      (buf : Buf) (ctx ctx' : ReceiveContext V) (actions : List ServerSessionResult)
      → handle_session_results buf ctx actions ≡ ok ctx'
      → Advances laws ctx ctx'
  unfolding handle_session_results
  sound_follows_on buf ctx ctx' [] e = step_of ctx ctx' (ok ctx) e (unsent laws ctx ctx refl refl)
  sound_follows_on buf ctx ctx' (action ∷ actions) e =
      let (mid, first, rest) =
        bind_ok (λ c. handle_session_results buf c actions) (handle_action buf ctx action) e in
      Advances-then laws ctx mid ctx'
        (step_of ctx mid (handle_action buf ctx action) first (handle_action-IsStep buf ctx action))
        (sound_follows_on buf mid ctx' actions rest)
