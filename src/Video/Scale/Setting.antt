-- ===== src/Video/Scale/Setting.antt =====
-- The setting that src/video/encode.rs makes to scale a picture, and the part that is drawn.
use mixlab.Prelude.{
  ◌-◌, ◌/◌, ◌≡◌, ◌≤◌, ◌<◌, refl, true, false, ◌||◌, ◌==◌, none, some, ltb, arith, not_lt→ltb,
}
use mixlab.Codec.Picture.{
  PictureSettings, same_settings, align_horizontal, align_vertical, new_context, process,
}
use mixlab.Video.Scale.{Scaling, ScaleSetting, drawn, scaled_by, scaled_picture, new_setting, draw}
use mixlab.Video.Scale.Parts.{
  ScalingLaws, IsSmall, align_le, align-align, part_size, or_false, and_true, fits_lem,
  subframe_lem, scaled_width_le, scaled_height_le,
}

same_settings_refl : (a : PictureSettings) → same_settings a a ≡ true
unfolding same_settings
same_settings_refl a = ground arith

pub same_settings_sym :
    (a b : PictureSettings) → same_settings a b ≡ false → same_settings b a ≡ false
unfolding same_settings
same_settings_sym a b e = ground arith

module _ (Q : Scaling) (output input : PictureSettings) where
  -- The setting for a picture of some width and height.
  abbrev pub setting_for : ScaleSetting
  setting_for =
      let format = output.pixel_format in
      record {
        ctx = record { input = input; output = scaled_picture Q output input };
        letterbox_x =
            align_horizontal format ((output.width - (scaled_picture Q output input).width) / 2);
        letterbox_y =
            align_vertical format ((output.height - (scaled_picture Q output input).height) / 2);
        scaled_width = (scaled_picture Q output input).width;
        scaled_height = (scaled_picture Q output input).height;
        frame = output;
      }

module _ {Q : Scaling} (laws : ScalingLaws Q) (output input : PictureSettings) where
  pub scaled_le :
      0 < input.width
      → 0 < input.height
      → ((scaled_picture Q output input).width ≤ output.width)
        × ((scaled_picture Q output input).height ≤ output.height)
  unfolding scaled_picture align_horizontal align_vertical
  scaled_le w h =
      let format = output.pixel_format in
      let low = align_le format.log2_chroma_w (scaled_by Q output input input.width) in
      let low' = align_le format.log2_chroma_h (scaled_by Q output input input.height) in
      (
        omega (arith, low, scaled_width_le laws output input w),
        omega (arith, low', scaled_height_le laws output input h),
      )

  fits_sides :
      0 < input.width
      → 0 < input.height
      → ((input.width == 0 || input.height == 0)
          || (ltb output.width (scaled_picture Q output input).width
              || ltb output.height (scaled_picture Q output input).height))
        ≡ false
  fits_sides w h =
      let (fw, fh) = scaled_le w h in
      let size = scaled_picture Q output input in
      or_false (input.width == 0 || input.height == 0)
        (ltb output.width size.width || ltb output.height size.height)
        (or_false (input.width == 0) (input.height == 0) (ground arith) (ground arith))
        (or_false (ltb output.width size.width) (ltb output.height size.height) (not_lt→ltb _ _ fw)
          (not_lt→ltb _ _ fh))

  pub new_setting_lem :
      0 < input.width
      → 0 < input.height
      → IsSmall input
      → IsSmall output
      → Q.gives_context input (scaled_picture Q output input) ≡ true
      → new_setting Q output input ≡ some (setting_for Q output input)
  unfolding new_setting new_context
  new_setting_lem w h small_in small_out gives =
      let (fw, fh) = scaled_le w h in
      let size = scaled_picture Q output input in
      rw
        (
          new_setting,
          fits_sides w h,
          new_context,
          fits_lem input small_in,
          fits_lem size (omega (arith, fw, small_out.0), omega (arith, fh, small_out.1)),
          gives,
          fits_lem output small_out,
        )
        refl

  pub new_setting-none :
      0 < input.width
      → 0 < input.height
      → IsSmall input
      → IsSmall output
      → Q.gives_context input (scaled_picture Q output input) ≡ false
      → new_setting Q output input ≡ none
  unfolding new_setting new_context
  new_setting-none w h small_in small_out refuses =
      let (fw, fh) = scaled_le w h in
      let size = scaled_picture Q output input in
      rw
        (
          new_setting,
          fits_sides w h,
          new_context,
          fits_lem input small_in,
          fits_lem size (omega (arith, fw, small_out.0), omega (arith, fh, small_out.1)),
          refuses,
        )
        refl

  pub draw_lem :
      0 < input.width
      → 0 < input.height
      → IsSmall output
      → let setting = setting_for Q output input in
        draw input setting
        ≡ some (
          drawn setting (record {
            picture = setting.ctx.output;
            x = setting.letterbox_x;
            y = setting.letterbox_y;
          }),
          setting,
        )
  unfolding draw process scaled_picture align_horizontal align_vertical
  draw_lem w h small =
      let format = output.pixel_format in
      let setting = setting_for Q output input in
      let size = scaled_picture Q output input in
      let (fw, fh) = scaled_le w h in
      let (ax, aw, bw) =
        part_size format.log2_chroma_w output.width size.width
          (align-align format.log2_chroma_w (scaled_by Q output input input.width)) fw in
      let (ay, ah, bh) =
        part_size format.log2_chroma_h output.height size.height
          (align-align format.log2_chroma_h (scaled_by Q output input input.height)) fh in
      rw
        (
          draw,
          subframe_lem output setting.letterbox_x setting.letterbox_y size.width size.height small
              (bw, bh) ax aw ay ah,
          process,
          and_true (same_settings input input) (same_settings size size) (same_settings_refl input)
              (same_settings_refl size),
        )
        refl
