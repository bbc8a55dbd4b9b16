-- ===== src/VideoMixer/Sizes.antt =====
-- The sizes of pictures that are put together in src/module/video_mixer.rs.
use mixlab.Prelude.{
  ℕ, ◌≡◌, ◌≤◌, ◌<◌, refl, true, List, [], ◌∷◌, some, arith, some_inj, subst, zero, suc,
}
use mixlab.Prelude.Lists.{All}
use mixlab.Codec.Picture.{PictureSettings, same_settings, align, align_horizontal, align_vertical}
use mixlab.Video.Scale.{Scaling, scaled_picture}
use mixlab.Video.Scale.Parts.{ScalingLaws, HasSides, IsSupported, scaled_grows}
use mixlab.VideoMixer.{max, unify_picture_settings, fold_left, fold1}

-- A picture of a format that halves its chroma at most, of two columns and rows at least, and that
-- grows by no chroma sample beyond an i32.
abbrev pub IsFine : PictureSettings → Type 0
IsFine p =
    (2 ≤ p.width)
    × (2 ≤ p.height)
    × (p.width ≤ 2147483646)
    × (p.height ≤ 2147483646)
    × (p.pixel_format.log2_chroma_w ≤ 1)
    × (p.pixel_format.log2_chroma_h ≤ 1)
    × IsSupported p

unify-IsFine : (a b : PictureSettings) → IsFine a → IsFine b → IsFine (unify_picture_settings a b)
unfolding unify_picture_settings max align_horizontal align_vertical align
unify-IsFine a b (w, h, w', h', _, _, _) (v, g, v', g', _, _, _) =
    (ground arith, ground arith, ground arith, ground arith, omega arith, omega arith, refl)

-- The picture is no larger than the target.
abbrev pub Covers : PictureSettings → PictureSettings → Type 0
Covers target p = (p.width ≤ target.width) × (p.height ≤ target.height)

Covers-trans : (a b c : PictureSettings) → Covers a b → Covers b c → Covers a c
Covers-trans a b c (w, h) (w', h') = (omega arith, omega arith)

pub same-Covers : (a b p : PictureSettings) → same_settings a b ≡ true → Covers b p → Covers a p
unfolding same_settings
same-Covers a b p e (w, h) = (ground arith, ground arith)

unify-Covers :
    (a b : PictureSettings)
    → Covers (unify_picture_settings a b) a × Covers (unify_picture_settings a b) b
unfolding unify_picture_settings max align_horizontal align_vertical align
unify-Covers a b = ((ground arith, ground arith), (ground arith, ground arith))

fold_left-Fits :
    (p : PictureSettings) (rest : List PictureSettings)
    → IsFine p
    → All IsFine rest
    → IsFine (fold_left p rest) × Covers (fold_left p rest) p × All (Covers (fold_left p rest)) rest
unfolding fold_left
fold_left-Fits p [] h k = (h, (omega arith, omega arith), tt)
fold_left-Fits p (q ∷ rest) h (k, ks) =
    let both = unify_picture_settings p q in
    let (fine, covers, all) = fold_left-Fits both rest (unify-IsFine p q h k) ks in
    let (a, b) = unify-Covers p q in
    (
      fine,
      Covers-trans (fold_left both rest) both p covers a,
      (Covers-trans (fold_left both rest) both q covers b, all),
    )

-- The target of a tick holds each of the pictures.
pub fold1-Fits :
    (found : List PictureSettings) (target : PictureSettings)
    → All IsFine found
    → fold1 found ≡ some target
    → IsFine target × All (Covers target) found
unfolding fold1
fold1-Fits [] target fine e = cc e
fold1-Fits (p ∷ rest) target (fine, fines) e =
    let (good, covers, all) = fold_left-Fits p rest fine fines in
    let same : fold_left p rest ≡ target = some_inj e in
    subst (λ target. IsFine target × All (Covers target) (p ∷ rest)) same (good, (covers, all))

-- Two columns are left when the rest is rounded down.
aligned_some : (bits value : ℕ) → bits ≤ 1 → 2 ≤ value → 0 < align bits value
unfolding align
aligned_some zero value h k = ground arith
aligned_some (suc zero) value h k = ground arith
aligned_some (suc (suc bits)) value h k = absurd (omega arith)

module _ {Q : Scaling} (laws : ScalingLaws Q) where
  pub scaled_picture-HasSides :
      (output input : PictureSettings)
      → IsFine output
      → IsFine input
      → Covers output input
      → HasSides (scaled_picture Q output input)
  unfolding scaled_picture align_horizontal align_vertical
  scaled_picture-HasSides output input fine (w, h, _, _, _, _, _) (wide, high) =
      let (_, _, _, _, bw, bh, _) = fine in
      let format = output.pixel_format in
      let sides : HasSides input = (omega arith, omega arith) in
      let width = scaled_grows laws output input input.width sides wide high in
      let height = scaled_grows laws output input input.height sides wide high in
      (
        aligned_some format.log2_chroma_w _ bw (omega (arith, width, w)),
        aligned_some format.log2_chroma_h _ bh (omega (arith, height, h)),
      )
