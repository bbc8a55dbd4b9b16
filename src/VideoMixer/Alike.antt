-- ===== src/VideoMixer/Alike.antt =====
-- The two frames that a tick of src/module/video_mixer.rs mixes.
use mixlab.Prelude.{◌≡◌, true, Option, some}
use mixlab.Codec.Picture.{PictureSettings, same_settings}
use mixlab.Media.{Rational}
use mixlab.VideoMixer.{VideoFrame}

module _ {R : Rational} where
  -- A frame that is mixed has the settings of the one that is put out.
  abbrev pub Agrees : Option PictureSettings → Option (VideoFrame R) → Type 0
  Agrees mixed out =
      (frame : PictureSettings)
      → mixed ≡ some frame
      → (v : VideoFrame R) × (out ≡ some v) × (same_settings frame v.decoded ≡ true)
