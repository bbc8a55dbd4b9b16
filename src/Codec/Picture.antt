-- ===== src/Codec/Picture.antt =====
-- codec/src/ffmpeg: the sizes of pictures (pixfmt.rs, frame.rs) and the scaler's checks (scale.rs).
-- Pointers are offsets in their planes; what ffmpeg does with them is outside the model.
pub mod Planes
use mixlab.Prelude.{
  ℕ, ◌+◌, ◌-◌, ◌*◌, ◌/◌, ◌^◌, Bool, false, ◌&&◌, ◌||◌, Option, none, some, if◌then◌else◌, ltb, leb,
  ◌==◌,
}

-- A pixel format, by what ffmpeg's descriptor says of it.
pub record PixelFormat : Type 0 where
  pub raw : ℕ
  pub log2_chroma_w : ℕ
  pub log2_chroma_h : ℕ
  -- ColorFormat::Yuv
  pub yuv : Bool
  -- sws_isSupportedInput and sws_isSupportedOutput
  pub supported : Bool

pub record PictureSettings : Type 0 where
  pub width : ℕ
  pub height : ℕ
  pub pixel_format : PixelFormat

-- The derived PartialEq; formats are compared by their number.
unfoldable pub same_settings : PictureSettings → PictureSettings → Bool
same_settings a b =
    (a.width == b.width && a.height == b.height) && a.pixel_format.raw == b.pixel_format.raw

-- `value & (usize::max_value() << bits)`: the low bits are cleared.
unfoldable pub align : ℕ → ℕ → ℕ
align bits value = value / 2 ^ bits * 2 ^ bits

unfoldable pub align_horizontal : PixelFormat → ℕ → ℕ
unfolding align
align_horizontal format value = align format.log2_chroma_w value

unfoldable pub align_vertical : PixelFormat → ℕ → ℕ
unfolding align
align_vertical format value = align format.log2_chroma_h value

-- A part of a picture: its settings, and where it starts.
pub record Subframe : Type 0 where
  pub picture : PictureSettings
  pub x : ℕ
  pub y : ℕ

-- AvFrame::subframe; `none` is a panic. A usize has 64 bits.
unfoldable pub subframe : PictureSettings → ℕ → ℕ → ℕ → ℕ → Option Subframe
unfolding align_horizontal align_vertical
subframe frame x y w h =
    let format = frame.pixel_format in
    let x' = align_horizontal format x in
    let y' = align_vertical format y in
    if leb (2 ^ 64) (x + w) || leb (2 ^ 64) (y + h)
    then none
    else if ltb frame.width x || ltb frame.width (x + w)
    then none
    else if ltb frame.height y || ltb frame.height (y + h)
    then none
    else some (record {
      picture = record {
        width = align_horizontal format (x + w) - x';
        height = align_vertical format (y + h) - y';
        pixel_format = format;
      };
      x = x';
      y = y';
    })

-- Where the part starts in the plane of a component: the first plane of a YUV picture is luma.
pub record PlaneStart : Type 0 where
  pub x_off : ℕ
  pub y_off : ℕ

unfoldable pub is_chroma : PixelFormat → ℕ → Bool
is_chroma format index = if format.yuv then ltb 0 index else false

unfoldable pub plane_start : Subframe → ℕ → PlaneStart
unfolding is_chroma
plane_start part index =
    let format = part.picture.pixel_format in
    if is_chroma format index
    then record {
      x_off = part.x / 2 ^ format.log2_chroma_w;
      y_off = part.y / 2 ^ format.log2_chroma_h;
    }
    else record { x_off = part.x; y_off = part.y }

-- The width and the height of the plane of a component, as AvFrame::blank clears it.
unfoldable pub plane_width : PictureSettings → ℕ → ℕ
unfolding is_chroma
plane_width picture index =
    if is_chroma picture.pixel_format index
    then picture.width / 2 ^ picture.pixel_format.log2_chroma_w
    else picture.width

unfoldable pub plane_height : PictureSettings → ℕ → ℕ
unfolding is_chroma
plane_height picture index =
    if is_chroma picture.pixel_format index
    then picture.height / 2 ^ picture.pixel_format.log2_chroma_h
    else picture.height

-- SwsContext.
pub record SwsContext : Type 0 where
  pub input : PictureSettings
  pub output : PictureSettings

-- The sizes fit into an i32.
unfoldable pub fits_i32 : PictureSettings → Bool
fits_i32 picture = ltb picture.width 2147483648 && ltb picture.height 2147483648

-- SwsContext::new, with what sws_getContext does: whether it gives a context for the sizes and formats
-- of two pictures. The null pointer that it gives otherwise panics, as do sizes that do not fit.
unfoldable pub new_context :
    (PictureSettings → PictureSettings → Bool)
    → PictureSettings
    → PictureSettings
    → Option SwsContext
unfolding fits_i32
new_context gives_context input output =
    if fits_i32 input && fits_i32 output
    then (if gives_context input output
        then some (record { input = input; output = output })
        else none)
    else none

-- SwsContext::process: none when it panics.
unfoldable pub process : SwsContext → PictureSettings → PictureSettings → Option (Unit {0})
unfolding same_settings
process ctx input output =
    if same_settings input ctx.input && same_settings output ctx.output then some tt else none
