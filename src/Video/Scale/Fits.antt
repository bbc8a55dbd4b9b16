-- ===== src/Video/Scale/Fits.antt =====
-- The letterbox of src/video/encode.rs lies within the picture.
use mixlab.Prelude.{◌+◌, ◌-◌, ◌/◌, ◌≡◌, ◌≤◌, ◌<◌, refl, true, false, Option, none, some, arith}
use mixlab.Codec.Picture.{
  PictureSettings, Subframe, same_settings, align_horizontal, align_vertical,
}
use mixlab.Video.Scale.{
  Scaling, ScaleSetting, DynamicScaler, drawn, scaled_picture, cached, get_or_insert, scale,
}
use mixlab.Video.Scale.Parts.{ScalingLaws, HasSides, IsEmpty, IsSupported, IsSmall, align_le}
use mixlab.Video.Scale.Setting.{
  same_settings_sym, setting_for, scaled_le, new_setting_lem, new_setting-none, draw_lem,
}

-- The scaler's own frame has the settings of its output.
abbrev pub Owns : PictureSettings → Option ScaleSetting → Type 0
Owns output none = Unit {0}
Owns output (some setting) = setting.frame ≡ output

not_cached :
    (output input : PictureSettings) (kept : Option ScaleSetting)
    → Owns output kept
    → same_settings output input ≡ false
    → cached kept input ≡ none
unfolding cached
not_cached output input none own other = refl
not_cached output input (some setting) own other = rw (cached, own, other) refl

module _ {Q : Scaling} (laws : ScalingLaws Q) where
  -- The setting and the part of a picture that is drawn.
  abbrev pub DrawsPart : DynamicScaler → PictureSettings → Type 0
  DrawsPart scaler input =
      (setting : ScaleSetting) × (part : Subframe) × (scale Q scaler input
        ≡ some (drawn setting part, record scaler { scale = some setting }))
      × (setting.ctx.input ≡ input)
      × (part.picture ≡ setting.ctx.output)
      × (part.x + part.picture.width ≤ scaler.output.width)
      × (part.y + part.picture.height ≤ scaler.output.height)
      × Owns scaler.output (some setting)

  draws :
      (scaler : DynamicScaler) (input : PictureSettings)
      → Owns scaler.output scaler.scale
      → same_settings input scaler.output ≡ false
      → (0 < input.width) × (0 < input.height)
      → IsSmall input
      → IsSmall scaler.output
      → Q.gives_context input (scaled_picture Q scaler.output input) ≡ true
      → DrawsPart scaler input
  unfolding scale get_or_insert scaled_picture align_horizontal align_vertical
  draws scaler input own other (w, h) small small_out gives =
      let output = scaler.output in
      let setting = setting_for Q output input in
      let format = output.pixel_format in
      let size = scaled_picture Q output input in
      let (fw, fh) = scaled_le laws output input w h in
      let low = align_le format.log2_chroma_w ((output.width - size.width) / 2) in
      let low' = align_le format.log2_chroma_h ((output.height - size.height) / 2) in
      (
        setting,
        record { picture = size; x = setting.letterbox_x; y = setting.letterbox_y },
        rw
            (
              scale,
              other,
              not_cached output input scaler.scale own (same_settings_sym input output other),
              new_setting_lem laws output input w h small small_out gives,
              draw_lem laws output input w h small_out,
            )
            refl,
        refl,
        refl,
        omega (arith, low, fw),
        omega (arith, low', fh),
        refl,
      )

  pub scale_draws :
      (scaler : DynamicScaler) (input : PictureSettings)
      → Owns scaler.output scaler.scale
      → same_settings input scaler.output ≡ false
      → (0 < input.width) × (0 < input.height)
      → IsSmall input
      → IsSmall scaler.output
      → IsSupported input
      → IsSupported scaler.output
      → (IsEmpty (scaled_picture Q scaler.output input) → scale Q scaler input ≡ none)
        × (HasSides (scaled_picture Q scaler.output input) → DrawsPart scaler input)
  unfolding scale get_or_insert scaled_picture
  scale_draws scaler input own other (w, h) small small_out known known_out =
      let output = scaler.output in
      let size = scaled_picture Q output input in
      (
        (λ empty.
            rw
              (
                scale,
                other,
                not_cached output input scaler.scale own (same_settings_sym input output other),
                new_setting-none laws output input w h small small_out
                    (laws.refused input size (w, h) empty),
              )
              refl),
        λ sides.
            draws scaler input own other (w, h) small small_out
              (laws.given input size (w, h) sides known known_out),
      )
