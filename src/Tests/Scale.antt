-- ===== src/Tests/Scale.antt =====
-- A picture of 640 by 361 in one of 1120 by 700.
use native.Mathlib.Nat.{mul-div_cancel, le-div_iff_mul-le, mul-le-mul_right, mul_comm}
use mixlab.Prelude.{
  ℕ, ◌+◌, ◌*◌, ◌/◌, ◌≡◌, ◌≤◌, ◌<◌, ◌&&◌, subst, refl, none, true, false, if◌then◌else◌, leb, ltb,
  arith, inl, inr,
}
use mixlab.Codec.Picture.{
  PictureSettings, PixelFormat, Subframe, same_settings, subframe, align_horizontal, align_vertical,
  align, plane_start, plane_width, plane_height,
}
use mixlab.Codec.Picture.Planes.{subframe-planes}
use mixlab.Video.Scale.{Scaling, DynamicScaler, scale, scaled_picture, scaled_by}
use mixlab.Video.Scale.Parts.{ScalingLaws, IsEmpty}
use mixlab.Video.Scale.Fits.{DrawsPart, scale_draws}

-- A ratio, by the whole parts of its multiples.
abbrev pub ratios : Scaling
ratios = record {
  Q = ℕ → ℕ;
  ratio = λ a b n. a * n / b;
  min = λ p q n. if leb (p n) (q n) then p n else q n;
  times = λ p n m. p n;
  to_integer = λ p. p 1;
  gives_context = λ a b. ltb 0 b.width && ltb 0 b.height;
}

not_empty : (b : PictureSettings) → IsEmpty b → (ltb 0 b.width && ltb 0 b.height) ≡ false
not_empty b (inl e) = ground arith
not_empty b (inr e) = ground arith

grows : (a b n : ℕ) → 0 < b → b ≤ a → n ≤ a * n / b
grows a b n h k =
    (le-div_iff_mul-le h).1 (subst (λ x. x ≤ a * n) (mul_comm b n) (mul-le-mul_right n k))

pub laws : ScalingLaws ratios
laws = record {
  le = λ p q. (n : ℕ) → p n ≤ q n;
  min-le_left = λ p q n. ground arith;
  min-le_right = λ p q n. ground arith;
  times-le = λ p q n h. h n;
  ratio-times = λ a b h. mul-div_cancel a h;
  ratio_grows = grows;
  min_grows = λ p q n m h k. ground arith;
  refused = λ a b sides empty. not_empty b empty;
  given = λ a b sides (w, h) known known'. ground arith;
}

abbrev yuv420p : PixelFormat
yuv420p = record { raw = 0; log2_chroma_w = 1; log2_chroma_h = 1; yuv = true; supported = true }

abbrev scaler : DynamicScaler
scaler = record {
  scale = none;
  output = record { width = 1120; height = 700; pixel_format = yuv420p };
}

abbrev input : PictureSettings
input = record { width = 640; height = 361; pixel_format = yuv420p }

-- This one is drawn, and one of 4000 by 1 panics.
input_draws : DrawsPart laws scaler input
unfolding same_settings scaled_picture scaled_by align_horizontal align_vertical align
input_draws =
    (scale_draws laws scaler input tt refl (omega arith, omega arith) (omega arith, omega arith)
        (omega arith, omega arith) refl refl).1
      (omega arith, omega arith)

abbrev thin : PictureSettings
thin = record { width = 4000; height = 1; pixel_format = yuv420p }

thin_panics : scale ratios scaler thin ≡ none
unfolding scaled_picture scaled_by align_horizontal align_vertical align same_settings
thin_panics =
    (scale_draws laws scaler thin tt refl (omega arith, omega arith) (omega arith, omega arith)
        (omega arith, omega arith) refl refl).0
      (inr refl)

abbrev part : Subframe
part = record {
  picture = record { width = 1120; height = 630; pixel_format = yuv420p };
  x = 0;
  y = 34;
}

subframe-planes_example :
    ((plane_start part 1).x_off + plane_width part.picture 1 ≤ plane_width scaler.output 1)
    × ((plane_start part 1).y_off + plane_height part.picture 1 ≤ plane_height scaler.output 1)
unfolding subframe align_horizontal align_vertical
subframe-planes_example = subframe-planes scaler.output 0 35 1120 630 1 part refl
