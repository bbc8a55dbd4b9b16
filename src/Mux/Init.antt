-- ===== src/Mux/Init.antt =====
-- The initialization segment of mux/src/mp4.rs.
use mixlab.Prelude.{ℕ, ◌%◌, Bool, true, false, List, [], ◌∷◌}
use mixlab.Mux.{audio_track, video_track}

-- The entry in the track's sample table.
pub data SampleEntry : Type 0 where
  -- AAC in profile Lc, at 44100 Hz, with two channels
  aac : SampleEntry
  -- width, height and the raw configuration record
  avc : ℕ → ℕ → List ℕ → SampleEntry

pub data HandlerType : Type 0 where
  soun : HandlerType
  vide : HandlerType

-- TrackBox, with its header, its media box and that box's headers in one record.
pub record TrackBox : Type 0 where
  pub track_id : ℕ
  pub duration : ℕ
  pub volume : ℕ
  pub width : ℕ
  pub height : ℕ
  pub timescale : ℕ
  pub media_duration : ℕ
  pub handler_type : HandlerType
  pub has_video_header : Bool
  pub has_sound_header : Bool
  pub sample_entries : List SampleEntry

pub record TrackExtendsBox : Type 0 where
  pub track_id : ℕ
  pub default_sample_description_index : ℕ
  pub default_sample_duration : ℕ
  pub default_sample_size : ℕ
  pub default_sample_flags : ℕ

pub record InitializationSegment : Type 0 where
  pub timescale : ℕ
  pub duration : ℕ
  pub trak_boxes : List TrackBox
  pub trex_boxes : List TrackExtendsBox

pub record Mp4Params : Type 0 where
  pub timescale : ℕ
  pub width : ℕ
  pub height : ℕ
  pub dcr : List ℕ

unfoldable pub audio_trak : ℕ → TrackBox
audio_trak timescale = record {
  track_id = audio_track;
  duration = 4294967295;
  volume = 0x0100;
  width = 0;
  height = 0;
  timescale = timescale;
  media_duration = 0;
  handler_type = soun;
  has_video_header = false;
  has_sound_header = true;
  sample_entries = aac ∷ [];
}

unfoldable pub video_trak : ℕ → Mp4Params → TrackBox
video_trak timescale params = record {
  track_id = video_track;
  duration = 4294967295;
  volume = 0x0100;
  width = params.width;
  height = params.height;
  timescale = timescale;
  media_duration = 0;
  handler_type = vide;
  has_video_header = true;
  has_sound_header = false;
  sample_entries = avc (params.width % 65536) (params.height % 65536) params.dcr ∷ [];
}

unfoldable pub track_extends : ℕ → TrackExtendsBox
track_extends id = record {
  track_id = id;
  default_sample_description_index = 1;
  default_sample_duration = 0;
  default_sample_size = 0;
  default_sample_flags = 0;
}

-- The segment is made with the timescale of the mux.
unfoldable pub make_init_segment : ℕ → Mp4Params → InitializationSegment
unfolding audio_trak video_trak track_extends
make_init_segment timescale params = record {
  timescale = timescale;
  duration = 0;
  trak_boxes = audio_trak timescale ∷ video_trak timescale params ∷ [];
  trex_boxes = track_extends audio_track ∷ track_extends video_track ∷ [];
}
