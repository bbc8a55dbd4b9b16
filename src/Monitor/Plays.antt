-- ===== src/Monitor/Plays.antt =====
-- From the ticks of src/module/monitor.rs to the MP4 stream of a browser, by mux/src/mp4.rs.
use mixlab.Prelude.{ℕ, ◌≡◌, ◌≤◌, true, List, map, some}
use mixlab.Prelude.Lists.{length, All}
use mixlab.Prelude.Int.{pos, ◌-ℤ◌}
use mixlab.Media.{Rational, is_zero_duration}
use mixlab.Mux.{Mp4Mux, MovieFragment, MediaSegment, new_mux}
use mixlab.Mux.Chain.{HasHeader, write_tracks, payload, Starts}
use mixlab.Video.{Codecs, EncodeStream, AudioSegment, VideoSegment, StreamSegment, AvPacket}
use mixlab.Video.Calls.{OrderLaws, frames_from}
use mixlab.Monitor.Sent.{Media, samples_of, all_calls}
use mixlab.Monitor.{Tick, all_pass, packet_of, run_codec_thread}

abbrev pub IsKeyPacket : AvPacket → Type 0
IsKeyPacket p = (p.is_key_frame ≡ true) × (p.presentation_timestamp -ℤ p.decode_timestamp ≡ pos 0)

-- What the monitor relies on: an encoded frame of sound begins with the 7 bytes of an ADTS header, as
-- Transport::Adts asks, and each packet of the video encoder is a key frame that is shown when it is
-- decoded, as a gop_size of 1 and Tune::Zerolatency ask.
pub record MonitorCodecs (R : Rational) (C : Codecs) : Type 0 where
  pub adts : (codec : C.AudioCodec) (pcm : List C.Pcm) → 7 ≤ length (C.encode codec pcm).0
  pub key_frames : (codec : C.VideoCodec) → All IsKeyPacket (C.recv_packets codec).0
  pub zero : R.is_zero (R.ratio (pos 0) (pos 44100)) ≡ true

module _ {R : Rational} where
  abbrev pub IsFrame : AudioSegment R → Type 0
  IsFrame a = 7 ≤ length a.frame

  abbrev pub IsKey : VideoSegment R → Type 0
  IsKey v = (is_zero_duration v.frame.composition_time ≡ true) × (v.frame.is_key_frame ≡ true)

module _ {R : Rational} {C : Codecs} where
  -- The queues hold only such segments.
  abbrev pub Fit : EncodeStream R C → Type 0
  Fit s =
      All IsFrame s.audio_segments
      × All IsKey s.video_segments
      × (s.video_ctx.time_base ≡ pos 44100)

module _ {R : Rational} {C : Codecs} where
  -- What the thread does for the ticks that it is sent: the segments that it sends, with what a
  -- browser that is sent all of them makes of them.
  abbrev pub Broadcast : (MovieFragment → ℕ) → EncodeStream R C → List (Tick R C) → Type 0
  Broadcast box_size s ticks =
      (segments : List (StreamSegment R)) × (end : EncodeStream R C) × (mux : Mp4Mux R)
      × (fragments : List MediaSegment) × (run_codec_thread s ticks ≡ some (segments, end))
      × Media s (map C.convert (samples_of ticks))
          (frames_from s.video_timestamp s.video_ctx.blank_frame (all_calls ticks)) segments end
      × (write_tracks box_size (new_mux R 44100) (map packet_of segments) ≡ some (mux, fragments))
      × (map (λ (f : MediaSegment). f.mdat) fragments ≡ map payload (map packet_of segments))
      × Starts (new_mux R 44100) fragments mux

module _ {R : Rational} {C : Codecs} (laws : MonitorCodecs R C) (order : OrderLaws R) where
  -- What the thread sends on is fit for the browser, and the queues stay so.
  abbrev Sends : List (StreamSegment R) → EncodeStream R C → Type 0
  Sends segments end = (all_pass segments ≡ true) × All HasHeader (map packet_of segments) × Fit end
