-- ===== src/VideoMixer.antt =====
-- src/module/video_mixer.rs: the module that mixes two of four pictures. A picture is known by its
-- settings; how the pixels are mixed is not modelled.
pub mod Sizes
pub mod Targets
pub mod Fits
pub mod Alike
use mixlab.Prelude.{
  ℕ, ◌+◌, ◌-◌, ◌^◌, Bool, true, false, List, [], ◌∷◌, map, Option, none, some, if◌then◌else◌, ltb,
}
use mixlab.Prelude.Lists.{get_elem?}
use mixlab.Prelude.Int.{pos}
use mixlab.Media.{Rational, MediaTime, MediaDuration, new_time, new_duration, after, before}
use mixlab.Engine.Io.{replicate}
use mixlab.Codec.Picture.{
  PictureSettings, PixelFormat, same_settings, align_horizontal, align_vertical,
}
use mixlab.Video.Scale.{Scaling, DynamicScaler, Scaled, as_given, drawn, new_scaler, scale}

-- PixelFormat::yuv420p, as ffmpeg describes it.
abbrev pub yuv420p : PixelFormat
yuv420p = record { raw = 0; log2_chroma_w = 1; log2_chroma_h = 1; yuv = true; supported = true }

module _ (R : Rational) where
  pub record VideoFrame : Type 0 where
    pub decoded : PictureSettings
    pub duration_hint : MediaDuration R
    pub tick_offset : MediaDuration R

  pub record StoredFrame : Type 0 where
    pub active_until : MediaTime R
    pub input_settings : PictureSettings
    pub frame : PictureSettings

  pub record Channel : Type 0 where
    pub stored : Option StoredFrame
    pub scaler : Option DynamicScaler

-- The parameters without the fader: which channels are A and B.
pub record VideoMixerParams : Type 0 where
  pub a : Option ℕ
  pub b : Option ℕ

-- What a tick puts out, with the settings of the two frames that are mixed.
module _ (R : Rational) where
  pub record Mixed : Type 0 where
    pub out : Option (VideoFrame R)
    pub out_a : Option (VideoFrame R)
    pub out_b : Option (VideoFrame R)
    pub mixed_a : Option PictureSettings
    pub mixed_b : Option PictureSettings

unfoldable pub max : ℕ → ℕ → ℕ
max a b = if ltb a b then b else a

-- The size that holds both pictures, rounded up to whole chroma samples.
unfoldable pub unify_picture_settings : PictureSettings → PictureSettings → PictureSettings
unfolding max align_horizontal align_vertical
unify_picture_settings a b = record {
  width = align_horizontal yuv420p (max a.width b.width + (2 ^ yuv420p.log2_chroma_w - 1));
  height = align_vertical yuv420p (max a.height b.height + (2 ^ yuv420p.log2_chroma_h - 1));
  pixel_format = yuv420p;
}

unfoldable pub fold_left : PictureSettings → List PictureSettings → PictureSettings
fold_left p [] = p
fold_left p (q ∷ rest) = fold_left (unify_picture_settings p q) rest

-- `fold1(unify_picture_settings)`
unfoldable pub fold1 : List PictureSettings → Option PictureSettings
unfolding fold_left
fold1 [] = none
fold1 (p ∷ rest) = some (fold_left p rest)

-- The frame that `scale` returns.
unfoldable pub frame_of : Scaled → PictureSettings → PictureSettings
frame_of as_given input = input
frame_of (drawn setting part) input = setting.frame

unfoldable pub has_output : Option DynamicScaler → PictureSettings → Bool
unfolding same_settings
has_output none target = false
has_output (some scaler) target = same_settings scaler.output target

module _ {R : Rational} where
  unfoldable pub expired : MediaTime R → Option (StoredFrame R) → Option (StoredFrame R)
  expired now none = none
  expired now (some st) = if before now st.active_until then some st else none

  unfoldable pub expire : MediaTime R → Channel R → Channel R
  unfolding expired
  expire now ch = record ch { stored = expired now ch.stored }

  unfoldable pub with_picture :
      Option (VideoFrame R) → Option (StoredFrame R) → List PictureSettings → List PictureSettings
  with_picture (some video) stored rest = video.decoded ∷ rest
  with_picture none (some st) rest = st.frame ∷ rest
  with_picture none none rest = rest

  -- The pictures that a tick has for its channels: none when an input has no channel, which panics.
  unfoldable pub pictures :
      List (Option (VideoFrame R)) → List (Channel R) → Option (List PictureSettings)
  unfolding with_picture
  pictures [] channels = some []
  pictures (input ∷ inputs) [] = none
  pictures (input ∷ inputs) (ch ∷ channels) = elim (pictures inputs channels) [
    | none ↦ none
    | some rest ↦ some (with_picture input ch.stored rest)
  ]

-- VIDEO_MIXER_CHANNELS
abbrev pub video_mixer_channels : ℕ
video_mixer_channels = 4

-- The channels of a new mixer.
unfoldable pub new_channels : {R : Rational} → List (Channel R)
unfolding replicate
new_channels {R} = replicate video_mixer_channels (record { stored = none; scaler = none })

module _ (Q : Scaling) {R : Rational} where
  -- The stored frame, scaled by a new scaler.
  unfoldable pub retarget : DynamicScaler → Option (StoredFrame R) → Option (Channel R)
  retarget scaler none = some (record { stored = none; scaler = some scaler })
  retarget scaler (some st) = elim (scale Q scaler st.frame) [
    | none ↦ none
    | some (result, scaler') ↦ some (record {
      stored = some (record st { frame = frame_of result st.frame });
      scaler = some scaler';
    })
  ]

  unfoldable pub rescale : Channel R → PictureSettings → Option (Channel R)
  unfolding has_output retarget new_scaler frame_of
  rescale ch target =
      let retargeted = retarget (new_scaler target) ch.stored in
      if has_output ch.scaler target then some ch else retargeted

  -- A frame is scaled and stored, by the scaler that exists after rescale.
  unfoldable pub store : MediaTime R → VideoFrame R → Option DynamicScaler → Option (Channel R)
  unfolding frame_of
  store now video none = none
  store now video (some scaler) = elim (scale Q scaler video.decoded) [
    | none ↦ none
    | some (result, scaler') ↦ some (record {
      stored = some (record {
        active_until = after (after now video.tick_offset) video.duration_hint;
        input_settings = video.decoded;
        frame = frame_of result video.decoded;
      });
      scaler = some scaler';
    })
  ]

  unfoldable pub receive :
      MediaTime R → PictureSettings → Option (VideoFrame R) → Channel R → Option (Channel R)
  unfolding rescale store
  receive now target none ch = rescale ch target
  receive now target (some video) ch = elim (rescale (record ch { stored = none }) target) [
    | none ↦ none
    | some ch' ↦ store now video ch'.scaler
  ]

  unfoldable pub receive_all :
      MediaTime R
      → PictureSettings
      → List (Option (VideoFrame R))
      → List (Channel R)
      → Option (List (Channel R))
  unfolding receive
  receive_all now target [] channels = some channels
  receive_all now target (input ∷ inputs) [] = none
  receive_all now target (input ∷ inputs) (ch ∷ channels) = elim (receive now target input ch) [
    | none ↦ none
    | some ch' ↦ elim (receive_all now target inputs channels) [
      | none ↦ none
      | some rest ↦ some (ch' ∷ rest)
    ]
  ]

  -- A tick up to the mixing: the channels, and the settings of the output frame when there is one.
  unfoldable pub tick_channels :
      ℕ
      → List (Option (VideoFrame R))
      → List (Channel R)
      → Option (Option PictureSettings × List (Channel R))
  unfolding expire pictures fold1 receive_all
  tick_channels t inputs channels =
      let now = new_time (pos t) (pos 44100) in
      let current = map (expire now) channels in
      elim (pictures inputs current) [
        | none ↦ none
        | some found ↦ elim (fold1 found) [
          | none ↦ some (none, current)
          | some target ↦ elim (receive_all now target inputs current) [
            | none ↦ none
            | some channels' ↦ some (some target, channels')
          ]
        ]
      ]

  unfoldable pub run_ticks :
      List (ℕ × List (Option (VideoFrame R))) → List (Channel R) → Option (List (Channel R))
  unfolding tick_channels
  run_ticks [] channels = some channels
  run_ticks ((t, inputs) ∷ ticks) channels = elim (tick_channels t inputs channels) [
    | none ↦ none
    | some (target, channels') ↦ run_ticks ticks channels'
  ]

module _ {R : Rational} where
  -- The picture of a chosen input.
  unfoldable pub copied : Option ℕ → List (Option (VideoFrame R)) → Option (VideoFrame R)
  copied none inputs = none
  copied (some i) inputs = elim (get_elem? inputs i) [ none ↦ none | some input ↦ input ]

  unfoldable pub stored_frame : Option (StoredFrame R) → Option PictureSettings
  stored_frame none = none
  stored_frame (some st) = some st.frame

  -- The stored frame of a chosen channel.
  unfoldable pub frame_at : Option ℕ → List (Channel R) → Option PictureSettings
  unfolding stored_frame
  frame_at none channels = none
  frame_at (some i) channels = elim (get_elem? channels i) [
    | none ↦ none
    | some ch ↦ stored_frame ch.stored
  ]

  -- The outputs of a tick that has a frame to put out, or none: then `out` stays as it was.
  unfoldable pub mix :
      VideoMixerParams
      → List (Option (VideoFrame R))
      → Option (VideoFrame R)
      → Option PictureSettings
      → List (Channel R)
      → Mixed R
  unfolding copied frame_at new_duration
  mix params inputs before none channels = record {
    out = before;
    out_a = copied params.a inputs;
    out_b = copied params.b inputs;
    mixed_a = none;
    mixed_b = none;
  }
  mix params inputs before (some target) channels = record {
    out = some (record {
      decoded = target;
      duration_hint = new_duration (pos 1) (pos 60);
      tick_offset = new_duration (pos 0) (pos 1);
    });
    out_a = copied params.a inputs;
    out_b = copied params.b inputs;
    mixed_a = frame_at params.a channels;
    mixed_b = frame_at params.b channels;
  }

module _ (Q : Scaling) {R : Rational} where
  -- A tick; `before` is what its first output held.
  unfoldable pub run_tick :
      VideoMixerParams
      → List (Channel R)
      → ℕ
      → List (Option (VideoFrame R))
      → Option (VideoFrame R)
      → Option (Mixed R × List (Channel R))
  unfolding tick_channels mix
  run_tick params channels t inputs before = elim (tick_channels Q t inputs channels) [
    | none ↦ none
    | some (target, channels') ↦ some (mix params inputs before target channels', channels')
  ]
