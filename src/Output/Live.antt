-- ===== src/Output/Live.antt =====
-- The thread of src/module/stream_output.rs that encodes and publishes.
pub mod Sound
use mixlab.Prelude.{
  ℕ, ◌+◌, Bool, true, false, List, [], ◌∷◌, ◌++◌, map, Option, none, some, if◌then◌else◌,
}
use mixlab.Prelude.Lists.{length}
use mixlab.Prelude.Int.{pos, as_u32}
use mixlab.Media.{
  Rational, MediaTime, MediaDuration, round_to_base, round_duration, remove_epoch, after,
}
use mixlab.Engine.Io.{Signals}
use mixlab.Rtmp.Packet.{
  AudioPacket, aac_sequence_header, aac_raw_data, VideoPacket, VideoFrameType, key_frame,
  inter_frame, sequence_header, nalu,
}
use mixlab.Video.{
  Codecs, EncodeStream, StreamSegment, AudioCtx, VideoCtx, new_encode_stream, send_audio,
  send_video, barrier,
}
use mixlab.Video.Merge.{recv_all}
use mixlab.Output.{Network, LiveOutputMsg}

module _ (R : Rational) (C : Codecs) where
  -- engine::VideoFrame, with the fields of video::Frame.
  pub record VideoFrame : Type 0 where
    pub decoded : C.Frame
    pub duration_hint : MediaDuration R
    pub tick_offset : MediaDuration R

  -- The signals of the engine; the silent sample is a parameter.
  abbrev pub signals_of : C.Sample → Signals
  signals_of silence = record { Sample = C.Sample; silence = silence; VideoFrame = VideoFrame }

  pub record LiveOutput : Type 0 where
    pub epoch : MediaTime R
    pub encode : EncodeStream R C

-- The calls of publish_audio and publish_video, each with its timestamp. A call that fails panics
-- and ends the thread.
pub data Publication : Type 0 where
  publish_audio : AudioPacket → ℕ → Publication
  publish_video : VideoPacket → ℕ → Publication

-- rtmp::TIME_BASE
abbrev pub rtmp_time_base : ℕ
rtmp_time_base = 1000

module _ {R : Rational} {C : Codecs} where
  -- The contexts and their configuration are those of the encoders.
  unfoldable pub start :
      MediaTime R
      → AudioCtx R C
      → VideoCtx R C
      → List ℕ
      → List ℕ
      → List Publication × LiveOutput R C
  unfolding new_encode_stream
  start epoch audio_ctx video_ctx asc dsc = (
    publish_audio (aac_sequence_header asc) 0
        ∷ publish_video
            (record {
              frame_type = key_frame;
              packet_type = sequence_header;
              composition_time = 0;
              body = dsc;
            })
            0
        ∷ [],
    record { epoch = epoch; encode = new_encode_stream audio_ctx video_ctx },
  )

module _ {R : Rational} where
  unfoldable pub publication_of : StreamSegment R → Publication
  publication_of (StreamSegment.audio a) =
      publish_audio (aac_raw_data a.frame)
        (as_u32 (round_to_base a.decode_timestamp (pos rtmp_time_base)))
  publication_of (StreamSegment.video v) =
      publish_video
        (record {
          frame_type = if v.frame.is_key_frame then key_frame else inter_frame;
          packet_type = nalu;
          composition_time = as_u32 (round_duration v.frame.composition_time (pos rtmp_time_base));
          body = v.frame.bytes;
        })
        (as_u32 (round_to_base v.decode_timestamp (pos rtmp_time_base)))

module _ {R : Rational} {C : Codecs} where
  unfoldable pub send_video_frame :
      EncodeStream R C → MediaTime R → Option (VideoFrame R C) → EncodeStream R C
  send_video_frame s timestamp none = s
  send_video_frame s timestamp (some frame) =
      send_video s (after timestamp frame.tick_offset) frame.duration_hint frame.decoded

  -- What tick sends to the encoders.
  unfoldable pub send_tick :
      EncodeStream R C → MediaTime R → List C.Sample → Option (VideoFrame R C) → EncodeStream R C
  unfolding send_video_frame
  send_tick s timestamp audio video =
      barrier (send_video_frame (send_audio s audio) timestamp video) timestamp

  unfoldable pub tick :
      LiveOutput R C
      → MediaTime R
      → List C.Sample
      → Option (VideoFrame R C)
      → List Publication × LiveOutput R C
  unfolding send_tick
  tick live timestamp audio video =
      let sent = send_tick live.encode (remove_epoch timestamp live.epoch) audio video in
      let (segments, encode) =
        recv_all (length sent.audio_segments + length sent.video_segments) sent in
      (map publication_of segments, record live { encode = encode })

module _ {R : Rational} {C : Codecs} {N : Network} {silence : C.Sample} where
  -- The messages of a task, in order.
  unfoldable pub run_thread :
      LiveOutput R C
      → List (LiveOutputMsg R N (signals_of R C silence))
      → List Publication × LiveOutput R C
  run_thread live [] = ([], live)
  run_thread live (msg ∷ messages) =
      let (out, live') = tick live msg.timestamp msg.audio msg.video in
      let (rest, end) = run_thread live' messages in (out ++ rest, end)
