-- ===== src/Video/Scale/Parts.antt =====
-- Aligned parts of pictures: codec/src/ffmpeg/frame.rs and src/video/encode.rs.
use native.Mathlib.Nat.{one-le-pow, div-mul-le_self, mul-div_cancel}
use mixlab.Prelude.{
  ℕ, ◌+◌, ◌-◌, ◌*◌, ◌/◌, ◌^◌, ◌≡◌, ◌≤◌, ◌<◌, refl, sym, ap, ◌∙◌, Bool, true, false, ◌||◌, ◌&&◌, ◌⊎◌,
  some, ltb, leb, arith, lt→ltb, not_lt→ltb, not_le→leb,
}
use mixlab.Codec.Picture.{
  PictureSettings, align, align_horizontal, align_vertical, subframe, fits_i32,
}
use mixlab.Video.Scale.{Scaling, scaled_by}

-- The sides of a picture.
abbrev pub HasSides : PictureSettings → Type 0
HasSides picture = (0 < picture.width) × (0 < picture.height)

abbrev pub IsEmpty : PictureSettings → Type 0
IsEmpty picture = (picture.width ≡ 0) ⊎ (picture.height ≡ 0)

abbrev pub IsSupported : PictureSettings → Type 0
IsSupported picture = picture.pixel_format.supported ≡ true

-- What is used of the arithmetic of ratios, and of swscale: it refuses a picture without width or
-- height, and gives a context for others of supported formats.
pub record ScalingLaws (Q : Scaling) : Type 1 where
  pub le : Q.Q → Q.Q → Type 0
  pub min-le_left : (p q : Q.Q) → le (Q.min p q) p
  pub min-le_right : (p q : Q.Q) → le (Q.min p q) q
  pub times-le :
      (p q : Q.Q) (n : ℕ) → le p q → Q.to_integer (Q.times p n) ≤ Q.to_integer (Q.times q n)
  pub ratio-times : (a b : ℕ) → 0 < b → Q.to_integer (Q.times (Q.ratio a b) b) ≡ a
  -- a ratio of one or more does not shrink
  pub ratio_grows : (a b n : ℕ) → 0 < b → b ≤ a → n ≤ Q.to_integer (Q.times (Q.ratio a b) n)
  -- the lesser of two is one of them
  pub min_grows :
      (p q : Q.Q) (n m : ℕ)
      → m ≤ Q.to_integer (Q.times p n)
      → m ≤ Q.to_integer (Q.times q n)
      → m ≤ Q.to_integer (Q.times (Q.min p q) n)
  pub refused : (a b : PictureSettings) → HasSides a → IsEmpty b → Q.gives_context a b ≡ false
  pub given :
      (a b : PictureSettings)
      → HasSides a
      → HasSides b
      → IsSupported a
      → IsSupported b
      → Q.gives_context a b ≡ true

pow_positive : (bits : ℕ) → 0 < 2 ^ bits
pow_positive bits = one-le-pow bits 2 (omega arith)

pub align_le : (bits value : ℕ) → align bits value ≤ value
unfolding align
align_le bits value = div-mul-le_self value (2 ^ bits)

-- Aligned sizes add up to an aligned size.
align-add : (bits a b : ℕ) → align bits (align bits a + align bits b) ≡ align bits a + align bits b
unfolding align
align-add bits a b =
    let d = 2 ^ bits in
    let sum : a / d * d + b / d * d ≡ (a / d + b / d) * d = omega arith in
    ap (λ n. n / d * d) sum
    ∙ (ap (λ q. q * d) (mul-div_cancel (a / d + b / d) (pow_positive bits)) ∙ sym sum)

pub align-align : (bits a : ℕ) → align bits (align bits a) ≡ align bits a
unfolding align
align-align bits a = ap (λ q. q * 2 ^ bits) (mul-div_cancel (a / 2 ^ bits) (pow_positive bits))

-- The part from `at` to `at + size` of a side, with its aligned start and its aligned length.
pub part_size :
    (bits side scaled : ℕ)
    → align bits scaled ≡ scaled
    → scaled ≤ side
    → let at = align bits ((side - scaled) / 2) in
      (align bits at ≡ at)
      × (align bits (at + scaled) - align bits at ≡ scaled)
      × (at + scaled ≤ side)
part_size bits side scaled even fits =
    let at = align bits ((side - scaled) / 2) in
    let start : align bits at ≡ at = align-align bits ((side - scaled) / 2) in
    let end : align bits (at + scaled) ≡ at + scaled =
      ap (λ n. align bits (at + n)) (sym even)
      ∙ (align-add bits ((side - scaled) / 2) scaled ∙ ap (λ n. at + n) even) in
    let low : at ≤ (side - scaled) / 2 = align_le bits ((side - scaled) / 2) in
    (start, omega (arith, start, end), omega (arith, low, fits))

module _ {Q : Scaling} (laws : ScalingLaws Q) (output input : PictureSettings) where
  pub scaled_width_le : 0 < input.width → scaled_by Q output input input.width ≤ output.width
  unfolding scaled_by
  scaled_width_le h =
      let wide = Q.ratio output.width input.width in
      let high = Q.ratio output.height input.height in
      let below = laws.times-le (Q.min wide high) wide input.width (laws.min-le_left wide high) in
      omega (arith, below, laws.ratio-times output.width input.width h)

  pub scaled_height_le : 0 < input.height → scaled_by Q output input input.height ≤ output.height
  unfolding scaled_by
  scaled_height_le h =
      let wide = Q.ratio output.width input.width in
      let high = Q.ratio output.height input.height in
      let below = laws.times-le (Q.min wide high) high input.height (laws.min-le_right wide high) in
      omega (arith, below, laws.ratio-times output.height input.height h)

-- A picture is not made smaller to fit into a larger one.
module _ {Q : Scaling} (laws : ScalingLaws Q) (output input : PictureSettings) where
  pub scaled_grows :
      (n : ℕ)
      → HasSides input
      → input.width ≤ output.width
      → input.height ≤ output.height
      → n ≤ scaled_by Q output input n
  unfolding scaled_by
  scaled_grows n (w, h) wide high =
      laws.min_grows (Q.ratio output.width input.width) (Q.ratio output.height input.height) n n
        (laws.ratio_grows output.width input.width n w wide)
        (laws.ratio_grows output.height input.height n h high)

pub or_false : (a b : Bool) → a ≡ false → b ≡ false → (a || b) ≡ false
or_false a b e e' = rw (e, e') refl

pub and_true : (a b : Bool) → a ≡ true → b ≡ true → (a && b) ≡ true
and_true a b e e' = rw (e, e') refl

-- The sizes fit into an i32.
abbrev pub IsSmall : PictureSettings → Type 0
IsSmall picture = (picture.width < 2147483648) × (picture.height < 2147483648)

pub fits_lem : (picture : PictureSettings) → IsSmall picture → fits_i32 picture ≡ true
unfolding fits_i32
fits_lem picture (w, h) =
    and_true (ltb picture.width 2147483648) (ltb picture.height 2147483648) (lt→ltb _ _ w)
      (lt→ltb _ _ h)

-- An aligned part within a picture is taken as it is.
pub subframe_lem :
    (frame : PictureSettings) (x y w h : ℕ)
    → IsSmall frame
    → (x + w ≤ frame.width) × (y + h ≤ frame.height)
    → let format = frame.pixel_format in
      (align format.log2_chroma_w x ≡ x)
      → (align format.log2_chroma_w (x + w) - align format.log2_chroma_w x ≡ w)
      → (align format.log2_chroma_h y ≡ y)
      → (align format.log2_chroma_h (y + h) - align format.log2_chroma_h y ≡ h)
      → subframe frame x y w h
        ≡ some (record {
          picture = record { width = w; height = h; pixel_format = frame.pixel_format };
          x = x;
          y = y;
        })
unfolding subframe align_horizontal align_vertical
subframe_lem frame x y w h (sw, sh) (fw, fh) ax aw ay ah =
    rw
      (
        subframe,
        or_false (leb (2 ^ 64) (x + w)) (leb (2 ^ 64) (y + h)) (not_le→leb _ _ (omega arith))
            (not_le→leb _ _ (omega arith)),
        or_false (ltb frame.width x) (ltb frame.width (x + w)) (not_lt→ltb _ _ (omega arith))
            (not_lt→ltb _ _ fw),
        or_false (ltb frame.height y) (ltb frame.height (y + h)) (not_lt→ltb _ _ (omega arith))
            (not_lt→ltb _ _ fh),
        aw,
        ah,
        ax,
        ay,
      )
      refl
