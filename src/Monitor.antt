-- ===== src/Monitor.antt =====
-- src/module/monitor.rs: the module whose input is watched in a browser.
pub mod Plays
pub mod Sent
use mixlab.Prelude.{
  ℕ, ◌+◌, Bool, true, false, ◌&&◌, List, [], ◌∷◌, ◌++◌, Option, none, some, if◌then◌else◌,
}
use mixlab.Prelude.Lists.{length}
use mixlab.Prelude.Int.{pos}
use mixlab.Media.{Rational, MediaTime, MediaDuration, new_time, remove_epoch, is_zero_duration}
use mixlab.Mux.{TrackData}
use mixlab.Engine.Io.{InputRef, expect_video, expect_stereo}
use mixlab.Video.{Codecs, EncodeStream, StreamSegment}
use mixlab.Video.Merge.{recv_all}
use mixlab.Output.{TrySend, sent, full, disconnected}
use mixlab.Output.Live.{VideoFrame, signals_of, send_tick}

module _ (R : Rational) (C : Codecs) where
  pub record Tick : Type 0 where
    pub timestamp : MediaTime R
    pub audio : List C.Sample
    pub video : Option (VideoFrame R C)

  -- The thread behind the channel, by what it was sent.
  pub record Monitor : Type 0 where
    pub epoch : Option (MediaTime R)
    pub ticks : List Tick

module _ {R : Rational} where
  -- The assertions on a segment.
  unfoldable pub passes : StreamSegment R → Bool
  passes (StreamSegment.audio a) = true
  passes (StreamSegment.video v) = is_zero_duration v.frame.composition_time && v.frame.is_key_frame

  unfoldable pub all_pass : List (StreamSegment R) → Bool
  unfolding passes
  all_pass [] = true
  all_pass (segment ∷ segments) = passes segment && all_pass segments

  -- The frame that `stream` sends to a client for a segment.
  unfoldable pub packet_of : StreamSegment R → MediaDuration R × TrackData R
  packet_of (StreamSegment.audio a) = (a.duration, TrackData.audio a.frame)
  packet_of (StreamSegment.video v) = (v.duration, TrackData.video v.frame)

-- `self.epoch.get_or_insert(now)`
unfoldable pub epoch_or : {R : Rational} → Option (MediaTime R) → MediaTime R → MediaTime R
epoch_or none now = now
epoch_or (some epoch) now = epoch

module _ {R : Rational} {C : Codecs} where
  -- A tick of the codec's thread, with the segments that it sends; none when an assertion fails.
  unfoldable pub codec_tick :
      EncodeStream R C → Tick R C → Option (List (StreamSegment R) × EncodeStream R C)
  unfolding all_pass
  codec_tick encode tick =
      let given = send_tick encode tick.timestamp tick.audio tick.video in
      let (segments, encode') =
        recv_all (length given.audio_segments + length given.video_segments) given in
      if all_pass segments then some (segments, encode') else none

  unfoldable pub run_codec_thread :
      EncodeStream R C → List (Tick R C) → Option (List (StreamSegment R) × EncodeStream R C)
  unfolding codec_tick
  run_codec_thread encode [] = some ([], encode)
  run_codec_thread encode (tick ∷ ticks) = elim (codec_tick encode tick) [
    | none ↦ none
    | some (segments, encode') ↦ elim (run_codec_thread encode' ticks) [
      | none ↦ none
      | some (rest, end) ↦ some (segments ++ rest, end)
    ]
  ]

  -- AsyncCodec::send: a tick that finds the channel full is dropped, none is the panic when the
  -- thread has died.
  unfoldable pub send : Monitor R C → Tick R C → TrySend → Option (Monitor R C)
  send m tick sent = some (record m { ticks = m.ticks ++ (tick ∷ []) })
  send m tick full = some m
  send m tick disconnected = none

  unfoldable pub run_tick :
      {silence : C.Sample}
      → Monitor R C
      → ℕ
      → List (InputRef (signals_of R C silence))
      → TrySend
      → Option (Monitor R C)
  unfolding send epoch_or new_time expect_video expect_stereo
  run_tick m t (video_in ∷ audio_in ∷ []) result = elim (expect_video video_in) [
    | none ↦ none
    | some video ↦ elim (expect_stereo audio_in) [
      | none ↦ none
      | some audio ↦
          let now = new_time (pos t) (pos 44100) in
          let epoch = epoch_or m.epoch now in
          let tick : Tick R C = record {
            timestamp = remove_epoch now epoch;
            audio = audio;
            video = video;
          } in
          send (record m { epoch = some epoch }) tick result
    ]
  ]
  run_tick m t [] result = none
  run_tick m t (video_in ∷ []) result = none
  run_tick m t (video_in ∷ audio_in ∷ more ∷ rest) result = none
