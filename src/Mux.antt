-- ===== src/Mux.antt =====
-- mux/src/mp4.rs: the media segments of a fragmented MP4 stream.
pub mod Init
pub mod Chain
use mixlab.Prelude.{
  ℕ, ◌+◌, ◌%◌, ◌<◌, Bool, true, false, not, List, [], ◌∷◌, Option, none, some, if◌then◌else◌, ltb,
}
use mixlab.Prelude.Lists.{length, drop}
use mixlab.Prelude.Int.{ℤ, pos, as_u32, as_i32, ◌+ℤ◌, ◌-ℤ◌}
use mixlab.Media.{
  Rational, MediaTime, MediaDuration, new_time, round_to_base, round_duration, after,
}

abbrev pub audio_track : ℕ
audio_track = 1

abbrev pub video_track : ℕ
video_track = 2

-- The boxes are those of the crate mse_fmp4, without the fields that are always None.
pub record SampleFlags : Type 0 where
  pub is_leading : ℕ
  pub sample_depends_on : ℕ
  pub sample_is_depended_on : ℕ
  pub sample_has_redundancy : ℕ
  pub sample_padding_value : ℕ
  pub sample_is_non_sync_sample : Bool
  pub sample_degradation_priority : ℕ

pub record Sample : Type 0 where
  pub duration : ℕ
  pub size : ℕ
  pub composition_time_offset : Option ℤ
  pub flags : Option SampleFlags

-- TrackFragmentBox, with its header, decode time and run in one record.
pub record TrackFragment : Type 0 where
  pub track_id : ℕ
  pub duration_is_empty : Bool
  pub default_base_is_moof : Bool
  pub base_media_decode_time : ℕ
  pub data_offset : ℤ
  pub samples : List Sample

pub record MovieFragment : Type 0 where
  pub sequence_number : ℕ
  pub traf : TrackFragment

pub record MediaSegment : Type 0 where
  pub moof : MovieFragment
  pub mdat : List ℕ

module _ (R : Rational) where
  pub record Mp4Mux : Type 0 where
    pub sequence : ℕ
    pub timescale : ℕ
    pub audio_time : MediaTime R
    pub video_time : MediaTime R

  pub record AvcFrame : Type 0 where
    pub is_key_frame : Bool
    pub composition_time : MediaDuration R
    pub bytes : List ℕ

  pub data TrackData : Type 0 where
    audio : List ℕ → TrackData
    video : AvcFrame → TrackData

  -- The state of Mp4Mux::new.
  unfoldable pub new_mux : ℕ → Mp4Mux
  unfolding new_time
  new_mux timescale = record {
    sequence = 0;
    timescale = timescale;
    audio_time = new_time (pos 0) (pos 1);
    video_time = new_time (pos 0) (pos 1);
  }

unfoldable pub sample_flags : Bool → SampleFlags
sample_flags is_key_frame = record {
  is_leading = 0;
  sample_depends_on = 1;
  sample_is_depended_on = 0;
  sample_has_redundancy = 0;
  sample_padding_value = 0;
  sample_is_non_sync_sample = not is_key_frame;
  sample_degradation_priority = 0;
}

-- The box size is computed with a dummy offset; 8 is the header of the box that follows.
unfoldable pub with_offset : (MovieFragment → ℕ) → MovieFragment → List ℕ → MediaSegment
with_offset box_size moof bytes = record {
  moof = record moof {
    traf = record moof.traf { data_offset = as_i32 (pos (box_size moof)) +ℤ pos 8 };
  };
  mdat = bytes;
}

module _ {R : Rational} where
  -- The start of a sample and its length in the base of the mux, each as a word of 32 bits.
  unfoldable pub start_in_base : ℕ → MediaTime R → ℕ
  start_in_base timescale time = as_u32 (round_to_base time (pos timescale))

  unfoldable pub length_in_base : ℕ → MediaTime R → MediaTime R → ℕ
  length_in_base timescale start end =
      as_u32 (round_to_base end (pos timescale) -ℤ round_to_base start (pos timescale))

  unfoldable pub audio_fragment : Mp4Mux R → MediaDuration R → List ℕ → TrackFragment
  audio_fragment mux duration raw_aac = record {
    track_id = audio_track;
    duration_is_empty = false;
    default_base_is_moof = true;
    base_media_decode_time = start_in_base mux.timescale mux.audio_time;
    data_offset = pos 0;
    samples =
        record {
          duration = length_in_base mux.timescale mux.audio_time (after mux.audio_time duration);
          size = length raw_aac % 4294967296;
          composition_time_offset = none;
          flags = none;
        }
        ∷ [];
  }

  unfoldable pub video_fragment : Mp4Mux R → MediaDuration R → AvcFrame R → TrackFragment
  video_fragment mux duration frame = record {
    track_id = video_track;
    duration_is_empty = false;
    default_base_is_moof = true;
    base_media_decode_time = start_in_base mux.timescale mux.video_time;
    data_offset = pos 0;
    samples =
        record {
          duration = length_in_base mux.timescale mux.video_time (after mux.video_time duration);
          size = length frame.bytes % 4294967296;
          composition_time_offset =
              some (as_i32 (round_duration frame.composition_time (pos mux.timescale)));
          flags = some (sample_flags frame.is_key_frame);
        }
        ∷ [];
  }

  unfoldable pub finished :
      (MovieFragment → ℕ) → Mp4Mux R → TrackFragment → List ℕ → Mp4Mux R × MediaSegment
  finished box_size mux traf bytes =
      let sequence : ℕ = (mux.sequence + 1) % 4294967296 in
      (
        record mux { sequence = sequence },
        with_offset box_size (record { sequence_number = sequence; traf = traf }) bytes,
      )

  -- make_media_segment. It panics on an audio frame that is shorter than its header of 7 bytes.
  unfoldable pub write_track :
      (MovieFragment → ℕ)
      → Mp4Mux R
      → MediaDuration R
      → TrackData R
      → Option (Mp4Mux R × MediaSegment)
  write_track box_size mux duration (audio adts_frame) =
      if ltb (length adts_frame) 7
      then none
      else some (
          finished box_size (record mux { audio_time = after mux.audio_time duration })
            (audio_fragment mux duration (drop 7 adts_frame)) (drop 7 adts_frame))
  write_track box_size mux duration (video frame) = some (
      finished box_size (record mux { video_time = after mux.video_time duration })
        (video_fragment mux duration frame) frame.bytes)
