-- ===== src/Video.antt =====
-- src/video/encode.rs: an encoded stream of sound and pictures. The encoders are parameters.
pub mod Audio
pub mod Clock
pub mod Pictures
pub mod Merge
pub mod Scale
pub mod Calls
use mixlab.Prelude.{
  ℕ, ◌*◌, ◌^◌, Bool, true, false, List, [], ◌∷◌, ◌++◌, map, Option, none, some, if◌then◌else◌, ltb,
}
use mixlab.Prelude.Lists.{length, take, drop}
use mixlab.Prelude.Int.{ℤ, pos, ◌-ℤ◌}
use mixlab.Media.{
  Rational, MediaTime, MediaDuration, new_time, new_duration, after, since, before, round_to_base,
}
use mixlab.Mux.{AvcFrame}

-- A packet of the video encoder.
pub record AvPacket : Type 0 where
  pub decode_timestamp : ℤ
  pub presentation_timestamp : ℤ
  pub is_key_frame : Bool
  pub bytes : List ℕ

-- The calls of fdk_aac and of ffmpeg, and the sample arithmetic on floats.
pub record Codecs : Type 1 where
  pub Sample : Type 0
  pub Pcm : Type 0
  pub AudioCodec : Type 0
  pub VideoCodec : Type 0
  pub Frame : Type 0
  -- the sample, clipped, as an i16
  pub convert : Sample → Pcm
  -- `codec.encode`, with what it writes to the output buffer
  pub encode : AudioCodec → List Pcm → List ℕ × AudioCodec
  -- send_frame with the presentation timestamp, its picture type cleared and the picture scaled
  pub send_frame : VideoCodec → Frame → ℤ → VideoCodec
  -- the packets that recv_packet gives until it asks for another frame
  pub recv_packets : VideoCodec → List AvPacket × VideoCodec

module _ (R : Rational) where
  pub record AudioSegment : Type 0 where
    pub decode_timestamp : MediaTime R
    pub duration : MediaDuration R
    pub frame : List ℕ

  pub record VideoSegment : Type 0 where
    pub decode_timestamp : MediaTime R
    pub duration : MediaDuration R
    pub frame : AvcFrame R

  pub data StreamSegment : Type 0 where
    audio : AudioSegment → StreamSegment
    video : VideoSegment → StreamSegment

module _ (R : Rational) (C : Codecs) where
  pub record AudioCtx : Type 0 where
    pub codec : C.AudioCodec
    pub pcm_buff : List C.Pcm
    pub sample_rate : ℤ

  pub record VideoCtx : Type 0 where
    pub codec : C.VideoCodec
    pub blank_frame : C.Frame
    pub time_base : ℤ

  pub record EncodeStream : Type 0 where
    pub audio_segments : List (AudioSegment R)
    pub audio_timestamp : MediaTime R
    pub audio_ctx : AudioCtx
    pub video_segments : List (VideoSegment R)
    pub video_timestamp : MediaTime R
    pub video_ctx : VideoCtx

abbrev pub samples_per_channel_per_fragment : ℕ
samples_per_channel_per_fragment = 1024

abbrev pub audio_channels : ℕ
audio_channels = 2

abbrev pub audio_frame_sample_count : ℕ
audio_frame_sample_count = audio_channels * samples_per_channel_per_fragment

module _ {R : Rational} where
  -- The segment made of a packet; the duration is that of the frame just sent.
  unfoldable pub segment_of : ℤ → ℤ → AvPacket → VideoSegment R
  unfolding new_time new_duration
  segment_of time_base duration_in_base packet = record {
    decode_timestamp = new_time packet.decode_timestamp time_base;
    duration = new_duration duration_in_base time_base;
    frame = record {
      is_key_frame = packet.is_key_frame;
      composition_time =
          new_duration (packet.presentation_timestamp -ℤ packet.decode_timestamp) time_base;
      bytes = packet.bytes;
    };
  }

  -- The segment that recv_segment takes, with what it leaves in the queues: none when a queue holds
  -- at most one.
  unfoldable pub next_segment :
      List (AudioSegment R)
      → List (VideoSegment R)
      → Option (StreamSegment R × List (AudioSegment R) × List (VideoSegment R))
  next_segment [] videos = none
  next_segment (a ∷ []) videos = none
  next_segment (a ∷ a' ∷ audios) [] = none
  next_segment (a ∷ a' ∷ audios) (v ∷ []) = none
  next_segment (a ∷ a' ∷ audios) (v ∷ v' ∷ videos) =
      if before a.decode_timestamp v.decode_timestamp
      then some (audio a, a' ∷ audios, v ∷ v' ∷ videos)
      else some (video v, a ∷ a' ∷ audios, v' ∷ videos)

module _ {R : Rational} {C : Codecs} where
  unfoldable pub new_encode_stream : AudioCtx R C → VideoCtx R C → EncodeStream R C
  unfolding new_time
  new_encode_stream audio_ctx video_ctx = record {
    audio_segments = [];
    audio_timestamp = new_time (pos 0) (pos 1);
    audio_ctx = audio_ctx;
    video_segments = [];
    video_timestamp = new_time (pos 0) (pos 1);
    video_ctx = video_ctx;
  }

  -- AudioCtx::send_audio, when the buffer holds more than a frame.
  unfoldable pub encode_frame : AudioCtx R C → Option (MediaDuration R × List ℕ) × AudioCtx R C
  encode_frame ctx =
      let (frame, codec) = C.encode ctx.codec (take audio_frame_sample_count ctx.pcm_buff) in
      (
        some (new_duration (pos samples_per_channel_per_fragment) ctx.sample_rate, frame),
        record ctx { codec = codec; pcm_buff = drop audio_frame_sample_count ctx.pcm_buff },
      )

  unfoldable pub send_samples :
      AudioCtx R C → List C.Sample → Option (MediaDuration R × List ℕ) × AudioCtx R C
  send_samples ctx samples =
      let filled : AudioCtx R C = record ctx { pcm_buff = ctx.pcm_buff ++ map C.convert samples } in
      if ltb audio_frame_sample_count (length filled.pcm_buff)
      then encode_frame filled
      else (none, filled)

  unfoldable pub queue_audio :
      EncodeStream R C → Option (MediaDuration R × List ℕ) → EncodeStream R C
  queue_audio s none = s
  queue_audio s (some (duration, frame)) = record s {
    audio_timestamp = after s.audio_timestamp duration;
    audio_segments =
        s.audio_segments
        ++ (record { decode_timestamp = s.audio_timestamp; duration = duration; frame = frame }
            ∷ []);
  }

  unfoldable pub send_audio : EncodeStream R C → List C.Sample → EncodeStream R C
  send_audio s samples =
      let (result, ctx) = send_samples s.audio_ctx samples in
      queue_audio (record s { audio_ctx = ctx }) result

  unfoldable pub encode_video : EncodeStream R C → MediaDuration R → C.Frame → EncodeStream R C
  encode_video s duration frame =
      let ctx = s.video_ctx in
      let end = after s.video_timestamp duration in
      let start_in_base = round_to_base s.video_timestamp ctx.time_base in
      let duration_in_base = round_to_base end ctx.time_base -ℤ start_in_base in
      let (packets, codec) = C.recv_packets (C.send_frame ctx.codec frame start_in_base) in
      record s {
        video_timestamp = end;
        video_ctx = record ctx { codec = codec };
        video_segments =
            s.video_segments ++ map (segment_of ctx.time_base duration_in_base) packets;
      }

  unfoldable pub send_video :
      EncodeStream R C → MediaTime R → MediaDuration R → C.Frame → EncodeStream R C
  send_video s timestamp duration_hint frame =
      let end = after timestamp duration_hint in
      let encoded = encode_video s (since end s.video_timestamp) frame in
      if before end s.video_timestamp then s else encoded

  unfoldable pub barrier : EncodeStream R C → MediaTime R → EncodeStream R C
  barrier s timestamp =
      let blank = encode_video s (since timestamp s.video_timestamp) s.video_ctx.blank_frame in
      if before s.video_timestamp timestamp then blank else s

  unfoldable pub recv_segment : EncodeStream R C → Option (StreamSegment R × EncodeStream R C)
  unfolding next_segment
  recv_segment s = elim (next_segment s.audio_segments s.video_segments) [
    | none ↦ none
    | some (segment, audios, videos) ↦
        some (segment, record s { audio_segments = audios; video_segments = videos })
  ]
