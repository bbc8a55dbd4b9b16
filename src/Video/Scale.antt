-- ===== src/Video/Scale.antt =====
-- DynamicScaler of src/video/encode.rs: a picture of any size put into one of a fixed size.
pub mod Parts
pub mod Fits
pub mod Setting
use mixlab.Prelude.{
  ℕ, ◌-◌, ◌/◌, Bool, true, false, ◌||◌, ◌==◌, Option, none, some, if◌then◌else◌, ltb,
}
use mixlab.Codec.Picture.{
  PictureSettings, PixelFormat, Subframe, SwsContext, same_settings, align_horizontal,
  align_vertical, subframe, new_context, process, fits_i32,
}

-- num_rational's Ratio<usize>, and ffmpeg's swscale.
pub record Scaling : Type 1 where
  pub Q : Type 0
  pub ratio : ℕ → ℕ → Q
  -- cmp::min
  pub min : Q → Q → Q
  pub times : Q → ℕ → Q
  pub to_integer : Q → ℕ
  -- sws_getContext gives no null pointer for these pictures
  pub gives_context : PictureSettings → PictureSettings → Bool

pub record ScaleSetting : Type 0 where
  pub ctx : SwsContext
  pub letterbox_x : ℕ
  pub letterbox_y : ℕ
  pub scaled_width : ℕ
  pub scaled_height : ℕ
  pub frame : PictureSettings

pub record DynamicScaler : Type 0 where
  pub scale : Option ScaleSetting
  pub output : PictureSettings

unfoldable pub new_scaler : PictureSettings → DynamicScaler
new_scaler output = record { scale = none; output = output }

-- What `scale` returns: the frame it was given, or its own with the part that was drawn.
pub data Scaled : Type 0 where
  as_given : Scaled
  drawn : ScaleSetting → Subframe → Scaled

-- The cached setting, unless its frame has other settings than the input.
unfoldable pub cached : Option ScaleSetting → PictureSettings → Option ScaleSetting
unfolding same_settings
cached none input = none
cached (some setting) input = if same_settings setting.frame input then some setting else none

-- The picture drawn into the part of the frame between the letterbox's bars.
unfoldable pub draw : PictureSettings → ScaleSetting → Option (Scaled × ScaleSetting)
unfolding subframe process
draw input setting =
    elim (subframe setting.frame setting.letterbox_x setting.letterbox_y setting.scaled_width
      setting.scaled_height) [
        | none ↦ none
        | some part ↦ elim (process setting.ctx input part.picture) [
          | none ↦ none
          | some _ ↦ some (drawn setting part, setting)
        ]
      ]

module _ (Q : Scaling) where
  unfoldable pub scaled_by : PictureSettings → PictureSettings → ℕ → ℕ
  scaled_by output input size =
      Q.to_integer (
        Q.times (Q.min (Q.ratio output.width input.width) (Q.ratio output.height input.height))
          size)

  unfoldable pub scaled_picture : PictureSettings → PictureSettings → PictureSettings
  unfolding scaled_by align_horizontal align_vertical
  scaled_picture output input =
      let format = output.pixel_format in
      record {
        width = align_horizontal format (scaled_by output input input.width);
        height = align_vertical format (scaled_by output input input.height);
        pixel_format = format;
      }

  -- The setting that is made for an input: none when it panics, as on an input without width or
  -- height, on sizes beyond an i32 or when swscale gives no context.
  unfoldable pub new_setting : PictureSettings → PictureSettings → Option ScaleSetting
  unfolding scaled_picture new_context fits_i32 align_horizontal align_vertical
  new_setting output input =
      let scaled = scaled_picture output input in
      let format = output.pixel_format in
      if (input.width == 0 || input.height == 0)
        || (ltb output.width scaled.width || ltb output.height scaled.height)
      then none
      else elim (new_context Q.gives_context input scaled) [
        | none ↦ none
        | some ctx ↦
            if fits_i32 output
            then some (record {
              ctx = ctx;
              letterbox_x = align_horizontal format ((output.width - scaled.width) / 2);
              letterbox_y = align_vertical format ((output.height - scaled.height) / 2);
              scaled_width = scaled.width;
              scaled_height = scaled.height;
              frame = output;
            })
            else none
      ]

  unfoldable pub get_or_insert :
      PictureSettings → PictureSettings → Option ScaleSetting → Option ScaleSetting
  unfolding new_setting
  get_or_insert output input none = new_setting output input
  get_or_insert output input (some setting) = some setting

  unfoldable pub scale : DynamicScaler → PictureSettings → Option (Scaled × DynamicScaler)
  unfolding same_settings cached get_or_insert draw
  scale scaler input =
      if same_settings input scaler.output
      then some (as_given, scaler)
      else elim (get_or_insert scaler.output input (cached scaler.scale input)) [
        | none ↦ none
        | some setting ↦ elim (draw input setting) [
          | none ↦ none
          | some (result, kept) ↦ some (result, record scaler { scale = some kept })
        ]
      ]
