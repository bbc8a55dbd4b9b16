-- ===== src/Mux/Chain.antt =====
-- The fragments of a stream written by mux/src/mp4.rs, one after the other.
use mixlab.Prelude.{
  ℕ, ◌+◌, ◌%◌, ◌≡◌, ◌≤◌, refl, ap₂, List, [], ◌∷◌, map, Option, none, some, if◌then◌else◌, ◌==◌,
  not_lt→ltb,
}
use mixlab.Prelude.Lists.{length, drop, All}
use mixlab.Prelude.Int.{pos, as_u32-sub}
use mixlab.Media.{Rational, MediaDuration, round_to_base, after}
use mixlab.Mux.{
  Mp4Mux, TrackData, audio, video, AvcFrame, MovieFragment, MediaSegment, Sample, audio_track,
  video_track, write_track, finished, with_offset, audio_fragment, video_fragment, start_in_base,
  length_in_base,
}

abbrev pub sample_duration : List Sample → ℕ
sample_duration [] = 0
sample_duration (s ∷ rest) = s.duration

-- The fragments of one track follow each other: each starts where the one before it ended, in the
-- 32-bit words that they are written in, the first at `from` and the last ends at `to`.
abbrev pub Follow : ℕ → ℕ → List MediaSegment → ℕ → Type 0
Follow track from [] to = from ≡ to
Follow track from (s ∷ rest) to =
    let traf = s.moof.traf in
    if traf.track_id == track
    then (traf.base_media_decode_time ≡ from)
      × Follow track ((from + sample_duration traf.samples) % 4294967296) rest to
    else Follow track from rest to

abbrev pub Numbered : ℕ → List MediaSegment → Type 0
Numbered n [] = Unit {0}
Numbered n (s ∷ rest) =
    (s.moof.sequence_number ≡ (n + 1) % 4294967296) × Numbered ((n + 1) % 4294967296) rest

module _ {R : Rational} where
  -- The frame has the 7 bytes of an ADTS header.
  abbrev pub HasHeader : MediaDuration R × TrackData R → Type 0
  HasHeader (d, audio frame) = 7 ≤ length frame
  HasHeader (d, video frame) = Unit {0}

  -- What a segment holds of a frame.
  abbrev pub payload : MediaDuration R × TrackData R → List ℕ
  payload (d, audio frame) = drop 7 frame
  payload (d, video frame) = frame.bytes

  -- The calls of write_track, one for each frame.
  unfoldable pub write_tracks :
      (MovieFragment → ℕ)
      → Mp4Mux R
      → List (MediaDuration R × TrackData R)
      → Option (Mp4Mux R × List MediaSegment)
  write_tracks box_size mux [] = some (mux, [])
  write_tracks box_size mux (frame ∷ frames) = elim (write_track box_size mux frame.0 frame.1) [
    | none ↦ none
    | some (next, segment) ↦ elim (write_tracks box_size next frames) [
      | none ↦ none
      | some (end, segments) ↦ some (end, segment ∷ segments)
    ]
  ]

  abbrev pub audio_clock : Mp4Mux R → ℕ
  audio_clock mux = start_in_base mux.timescale mux.audio_time

  abbrev pub video_clock : Mp4Mux R → ℕ
  video_clock mux = start_in_base mux.timescale mux.video_time

  -- Where the tracks of a mux stand.
  abbrev pub Starts : Mp4Mux R → List MediaSegment → Mp4Mux R → Type 0
  Starts mux segments end =
      Follow audio_track (audio_clock mux) segments (audio_clock end)
      × Follow video_track (video_clock mux) segments (video_clock end)
      × Numbered mux.sequence segments

  -- What a written segment adds in front of those that follow.
  abbrev Leads : Mp4Mux R → Mp4Mux R × MediaSegment → Type 0
  Leads mux written =
      (segments : List MediaSegment) (end : Mp4Mux R)
      → Starts written.0 segments end
      → Starts mux (written.1 ∷ segments) end

  audio_written :
      (box_size : MovieFragment → ℕ) (mux : Mp4Mux R) (d : MediaDuration R) (raw_aac : List ℕ)
      → Leads mux (
          finished box_size
            (record mux { audio_time = after mux.audio_time d })
            (audio_fragment mux d raw_aac)
            raw_aac)
  unfolding finished with_offset audio_fragment start_in_base length_in_base
  audio_written box_size mux d raw_aac segments end later =
      let base = pos mux.timescale in
      let sum =
        as_u32-sub (round_to_base (after mux.audio_time d) base)
          (round_to_base mux.audio_time base) in
      ((refl, rw (sum) later.0), later.1, (refl, later.2))

  video_written :
      (box_size : MovieFragment → ℕ) (mux : Mp4Mux R) (d : MediaDuration R) (frame : AvcFrame R)
      → Leads mux (
          finished box_size
            (record mux { video_time = after mux.video_time d })
            (video_fragment mux d frame)
            frame.bytes)
  unfolding finished with_offset video_fragment start_in_base length_in_base
  video_written box_size mux d frame segments end later =
      let base = pos mux.timescale in
      let sum =
        as_u32-sub (round_to_base (after mux.video_time d) base)
          (round_to_base mux.video_time base) in
      (later.0, (refl, rw (sum) later.1), (refl, later.2))

  write_track_lem :
      (box_size : MovieFragment → ℕ) (mux : Mp4Mux R) (frame : MediaDuration R × TrackData R)
      → HasHeader frame
      → (written : Mp4Mux R × MediaSegment) × (write_track box_size mux frame.0 frame.1
          ≡ some written)
        × (written.1.mdat ≡ payload frame)
        × Leads mux written
  unfolding write_track finished with_offset
  write_track_lem box_size mux (d, audio frame) h = (
    finished box_size (record mux { audio_time = after mux.audio_time d })
        (audio_fragment mux d (drop 7 frame)) (drop 7 frame),
    rw (write_track, not_lt→ltb (length frame) 7 h),
    refl,
    audio_written box_size mux d (drop 7 frame),
  )
  write_track_lem box_size mux (d, video frame) h = (
    finished box_size (record mux { video_time = after mux.video_time d })
        (video_fragment mux d frame) frame.bytes,
    refl,
    refl,
    video_written box_size mux d frame,
  )

  -- The frames of a stream are all written when each audio frame has its 7 bytes of header. The
  -- segments hold the frames without those headers and are numbered one by one, and on each track
  -- a fragment starts where the one before it ended: the rounded durations add up, in 32-bit words,
  -- to the rounded time that has passed.
  pub fragments_chain :
      (box_size : MovieFragment → ℕ) (mux : Mp4Mux R)
      (frames : List (MediaDuration R × TrackData R))
      → All HasHeader frames
      → (end : Mp4Mux R) × (segments : List MediaSegment) × (write_tracks box_size mux frames
          ≡ some (end, segments))
        × (map (λ (s : MediaSegment). s.mdat) segments ≡ map payload frames)
        × Starts mux segments end
  unfolding write_tracks
  fragments_chain box_size mux [] h = (mux, [], refl, refl, (refl, refl, tt))
  fragments_chain box_size mux (frame ∷ frames) h =
      let (written, e, held, leads) = write_track_lem box_size mux frame h.0 in
      let (end, segments, e', held', starts) = fragments_chain box_size written.0 frames h.1 in
      (
        end,
        written.1 ∷ segments,
        rw (write_tracks, e, e'),
        ap₂ (λ x xs. x ∷ xs) held held',
        leads segments end starts,
      )
