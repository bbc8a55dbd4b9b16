-- ===== src/Codec/Picture/Planes.antt =====
-- The parts of the planes that a part of a picture of codec/src/ffmpeg/frame.rs takes.
use native.Mathlib.Nat.{one-le-pow, div-mul-le_self, le-div_iff_mul-le, add-mul}
use mathlib.Core.Option
use mixlab.Prelude.{
  ℕ, ◌+◌, ◌-◌, ◌/◌, ◌^◌, ◌≡◌, ◌≤◌, ◌<◌, refl, sym, ◌∙◌, Bool, true, false, ◌||◌, some, some_inj,
  ltb, leb, not_ltb→le, arith, Bool-cases, inl, inr,
}
use mixlab.Codec.Picture.{
  PictureSettings, Subframe, align, align_horizontal, align_vertical, subframe, is_chroma,
  plane_start, plane_width, plane_height,
}

positive : (bits : ℕ) → 0 < 2 ^ bits
positive bits = one-le-pow bits 2 (omega arith)

or_false : (a b : Bool) → (a || b) ≡ false → (a ≡ false) × (b ≡ false)
or_false true b e = cc
or_false false b e = (refl, e)

-- The quotients of two lengths that fit into a third fit into its quotient.
div_sum_le : (d a b n : ℕ) → 0 < d → a + b ≤ n → a / d + b / d ≤ n / d
div_sum_le d a b n h fits =
    (le-div_iff_mul-le h).1
      (omega (arith, add-mul (a / d) (b / d) d, div-mul-le_self a d, div-mul-le_self b d, fits))

-- The aligned part of a side ends where it should, or before.
aligned_le :
    (bits x right n : ℕ)
    → x ≤ right
    → right ≤ n
    → align bits x + (align bits right - align bits x) ≤ n
unfolding align
aligned_le bits x right n h fits =
    omega (arith, div-mul-le_self x (2 ^ bits), div-mul-le_self right (2 ^ bits), h, fits)

-- What a part that is taken without a panic is.
subframe_parts :
    (frame : PictureSettings) (x y w h : ℕ) {part : Subframe}
    → subframe frame x y w h ≡ some part
    → (part.x + part.picture.width ≤ frame.width)
      × (part.y + part.picture.height ≤ frame.height)
      × (part.picture.pixel_format ≡ frame.pixel_format)
unfolding subframe align_horizontal align_vertical
subframe_parts frame x y w h {part} e =
    elim (Bool-cases (leb (2 ^ 64) (x + w) || leb (2 ^ 64) (y + h))) [
      | inl over ↦ absurd (Option.none-ne-some part (sym (rw (subframe, over) refl) ∙ e))
      | inr small ↦ elim (Bool-cases (ltb frame.width x || ltb frame.width (x + w))) [
        | inl wide ↦ absurd (Option.none-ne-some part (sym (rw (subframe, small, wide) refl) ∙ e))
        | inr across ↦ elim (Bool-cases (ltb frame.height y || ltb frame.height (y + h))) [
          | inl high ↦
              absurd (Option.none-ne-some part (sym (rw (subframe, small, across, high) refl) ∙ e))
          | inr down ↦
              let format = frame.pixel_format in
              let (_, right) = or_false (ltb frame.width x) (ltb frame.width (x + w)) across in
              let (_, bottom) = or_false (ltb frame.height y) (ltb frame.height (y + h)) down in
              let wide : x ≤ x + w = omega arith in
              let high : y ≤ y + h = omega arith in
              let found = some_inj (sym e ∙ rw (subframe, small, across, down) refl) in
              rw (found) (
                aligned_le format.log2_chroma_w x (x + w) frame.width wide
                    (not_ltb→le frame.width (x + w) right),
                aligned_le format.log2_chroma_h y (y + h) frame.height high
                    (not_ltb→le frame.height (y + h) bottom),
                refl,
              )
        ]
      ]
    ]

-- A part of a picture that is taken without a panic lies, in the plane of each component, within
-- the plane of the picture: from its start its width goes no further than the width of the plane,
-- and its height no further than the height.
pub subframe-planes :
    (frame : PictureSettings) (x y w h index : ℕ) (part : Subframe)
    → subframe frame x y w h ≡ some part
    → ((plane_start part index).x_off + plane_width part.picture index ≤ plane_width frame index)
      × ((plane_start part index).y_off + plane_height part.picture index
          ≤ plane_height frame index)
unfolding plane_start plane_width plane_height
subframe-planes frame x y w h index part e =
    let (across, down, same) = subframe_parts frame x y w h e in
    let format = frame.pixel_format in
    elim (Bool-cases (is_chroma format index)) [
      | inl chroma ↦
          rw (same, chroma)
            (
              div_sum_le (2 ^ format.log2_chroma_w) part.x part.picture.width frame.width
                  (positive format.log2_chroma_w) across,
              div_sum_le (2 ^ format.log2_chroma_h) part.y part.picture.height frame.height
                  (positive format.log2_chroma_h) down,
            )
      | inr luma ↦ rw (same, luma) (across, down)
    ]
