-- ===== src/VideoMixer/Fits.antt =====
-- The ticks of src/module/video_mixer.rs: what is stored has the size of what is mixed.
use mixlab.Prelude.{
  ℕ, ◌≡◌, refl, sym, true, List, [], ◌∷◌, map, Option, none, some, Bool-cases, Option-cases, ◌∙◌,
  inl, inr, arith, subst,
}
use mixlab.Prelude.Lists.{length, length-map, All}
use mixlab.Prelude.Int.{pos}
use mixlab.Engine.Io.{replicate}
use mixlab.Codec.Picture.{PictureSettings, same_settings}
use mixlab.Media.{Rational, MediaTime, before, new_time}
use mixlab.Video.Scale.{Scaling, DynamicScaler}
use mixlab.Video.Scale.Parts.{ScalingLaws}
use mixlab.VideoMixer.{
  VideoFrame, StoredFrame, Channel, fold1, expire, expired, with_picture, pictures, receive_all,
  tick_channels, run_ticks, new_channels,
}
use mixlab.VideoMixer.Sizes.{IsFine, Covers, fold1-Fits}
use mixlab.VideoMixer.Targets.{
  CoversChannel, IsFineInput, Holds, FitsIn, Fits, IsAt, Fits-IsFine, receive-IsAt,
  same_settings_trans,
}

fold1-none : (found : List PictureSettings) → fold1 found ≡ none → found ≡ []
unfolding fold1
fold1-none [] e = refl
fold1-none (p ∷ rest) e = cc e

module _ {R : Rational} where
  expired-FitsIn :
      (now : MediaTime R) (stored : Option (StoredFrame R)) (scaler : Option DynamicScaler)
      → FitsIn stored scaler
      → FitsIn (expired now stored) scaler
  unfolding expired
  expired-FitsIn now none scaler fits = fits
  expired-FitsIn now (some st) none fits = absurd (cc fits)
  expired-FitsIn now (some st) (some d) (serves, held) =
      elim (Bool-cases (before now st.active_until)) [
        | inl e ↦ rw (expired, e) (serves, held)
        | inr e ↦ rw (expired, e) (serves, tt)
      ]

  expire_all-Fits :
      (now : MediaTime R) (channels : List (Channel R))
      → All Fits channels
      → All Fits (map (expire now) channels)
  unfolding expire
  expire_all-Fits now [] fits = tt
  expire_all-Fits now (ch ∷ channels) (fit, fits) =
      (expired-FitsIn now ch.stored ch.scaler fit, expire_all-Fits now channels fits)

  IsAt-Fits : (target : PictureSettings) (ch : Channel R) → IsAt target ch → Fits ch
  IsAt-Fits target ch (d, e, serves, at, held) = subst (FitsIn ch.stored) (sym e) (serves, held)

  Holds-trans :
      (stored : Option (StoredFrame R)) (p q : PictureSettings)
      → Holds stored p
      → same_settings p q ≡ true
      → Holds stored q
  Holds-trans none p q held e = tt
  Holds-trans (some st) p q (fine, same) e = (fine, same_settings_trans st.frame p q same e)

  -- A picture for each channel: as many inputs as channels.
  abbrev Same : List (Option (VideoFrame R)) → List (Channel R) → Type 0
  Same inputs channels = length inputs ≡ length channels

  -- What is stored can be mixed into a frame of these settings; none when there is no picture.
  abbrev pub AreAt : Option PictureSettings → List (Channel R) → Type 0
  AreAt none channels = All (λ (ch : Channel R). ch.stored ≡ none) channels
  AreAt (some target) channels = All (λ (ch : Channel R). Holds ch.stored target) channels

  -- The inputs of a tick: one for each channel of the mixer, with pictures that the scaler takes.
  abbrev pub AreFine : ℕ × List (Option (VideoFrame R)) → Type 0
  AreFine (t, inputs) = (length inputs ≡ 4) × All IsFineInput inputs

  -- The target holds the picture of each channel.
  abbrev CoverAll : PictureSettings → List (Option (VideoFrame R)) → List (Channel R) → Type 0
  CoverAll target [] channels = Unit {0}
  CoverAll target (input ∷ inputs) [] = Unit {0}
  CoverAll target (input ∷ inputs) (ch ∷ channels) =
      CoversChannel target input ch.stored × CoverAll target inputs channels

  with_picture-IsFine :
      (input : Option (VideoFrame R)) (ch : Channel R) (rest : List PictureSettings)
      → IsFineInput input
      → Fits ch
      → All IsFine rest
      → All IsFine (with_picture input ch.stored rest)
        × (with_picture input ch.stored rest ≡ [] → (ch.stored ≡ none) × (rest ≡ []))
        × ((target : PictureSettings)
            → All (Covers target) (with_picture input ch.stored rest)
            → CoversChannel target input ch.stored × All (Covers target) rest)
  unfolding with_picture
  with_picture-IsFine (some video) ch rest fine fit fines =
      ((fine, fines), (λ e. cc e), λ target covers. covers)
  with_picture-IsFine none ch rest fine fit fines = elim (Option-cases ch.stored) [
    | inl e ↦ rw (e) (fines, (λ e'. (refl, e')), λ target covers. (tt, covers))
    | inr (st, e) ↦
        rw (with_picture, e)
          (
            (Fits-IsFine ch.stored ch.scaler fit st e, fines),
            (λ e'. absurd (cc e')),
            λ target covers. covers,
          )
  ]

  pictures-IsFine :
      (inputs : List (Option (VideoFrame R))) (channels : List (Channel R))
      → Same inputs channels
      → All IsFineInput inputs
      → All Fits channels
      → (found : List PictureSettings) × (pictures inputs channels ≡ some found)
        × All IsFine found
        × (found ≡ [] → AreAt none channels)
        × ((target : PictureSettings) → All (Covers target) found → CoverAll target inputs channels)
  unfolding pictures
  pictures-IsFine [] [] same fine fits = ([], refl, tt, (λ e. tt), λ target covers. tt)
  pictures-IsFine [] (ch ∷ channels) same fine fits = absurd (omega arith)
  pictures-IsFine (input ∷ inputs) [] same fine fits = absurd (omega arith)
  pictures-IsFine (input ∷ inputs) (ch ∷ channels) same (fine, fines) (fit, fits) =
      let (rest, e, all, empty, covers) =
        pictures-IsFine inputs channels (omega arith) fines fits in
      let (found, empty', covers') = with_picture-IsFine input ch rest fine fit all in
      (
        with_picture input ch.stored rest,
        rw (e) refl,
        found,
        (λ e'. let (gone, none_left) = empty' e' in (gone, empty none_left)),
        λ target held. let (first, others) = covers' target held in (first, covers target others),
      )

new_channels-Fits : (R : Rational) → All (Fits {R = R}) new_channels
unfolding new_channels replicate
new_channels-Fits R = (refl, (refl, (refl, (refl, tt))))

module _ {Q : Scaling} (laws : ScalingLaws Q) {R : Rational} where
  -- Channels after a tick: they fit, and can be mixed.
  abbrev Outcome : List (Channel R) → Option PictureSettings → List (Channel R) → Type 0
  Outcome before target channels =
      All Fits channels × (length channels ≡ length before) × AreAt target channels

  receive_all-Outcome :
      (now : MediaTime R) (target : PictureSettings) (inputs : List (Option (VideoFrame R)))
      (channels : List (Channel R))
      → IsFine target
      → Same inputs channels
      → All IsFineInput inputs
      → All Fits channels
      → CoverAll target inputs channels
      → (channels' : List (Channel R)) × (receive_all Q now target inputs channels ≡ some channels')
        × Outcome channels (some target) channels'
  unfolding receive_all
  receive_all-Outcome now target [] [] good same fine fits covers = ([], refl, (tt, refl, tt))
  receive_all-Outcome now target [] (ch ∷ channels) good same fine fits covers =
      absurd (omega arith)
  receive_all-Outcome now target (input ∷ inputs) [] good same fine fits covers =
      absurd (omega arith)
  receive_all-Outcome now target (input ∷ inputs) (ch ∷ channels) good same (fine, fines)
        (fit, fits) (cover, covers) =
      let (ch', e, at) = receive-IsAt laws now target input ch good fine fit cover in
      let (rest, e', (fits', size, held)) =
        receive_all-Outcome now target inputs channels good (omega arith) fines fits covers in
      let (d, _, _, same_size, held') = at in
      (
        ch' ∷ rest,
        rw (receive_all, e, e') refl,
        (
          (IsAt-Fits target ch' at, fits'),
          omega (arith, size),
          (Holds-trans ch'.stored d.output target held' same_size, held),
        ),
      )

  tick_channels-Outcome :
      (t : ℕ) (inputs : List (Option (VideoFrame R))) (channels : List (Channel R))
      → Same inputs channels
      → All IsFineInput inputs
      → All Fits channels
      → (target : Option PictureSettings) × (channels' : List (Channel R)) × (tick_channels Q t
            inputs channels
          ≡ some (target, channels'))
        × Outcome channels target channels'
  unfolding tick_channels
  tick_channels-Outcome t inputs channels same fine fits =
      let now : MediaTime R = new_time (pos t) (pos 44100) in
      let current = map (expire now) channels in
      let size : length current ≡ length channels = length-map (expire now) channels in
      let fits' = expire_all-Fits now channels fits in
      let (found, e, fines, empty, covers) =
        pictures-IsFine inputs current (omega (arith, size)) fine fits' in
      elim (Option-cases (fold1 found)) [
        | inl e' ↦ (
          none,
          current,
          rw (tick_channels, e, e') refl,
          (fits', size, empty (fold1-none found e')),
        )
        | inr (target, e') ↦
            let (good, all) = fold1-Fits found target fines e' in
            let (channels', e'', (fits'', size', held)) =
              receive_all-Outcome now target inputs current good (omega (arith, size)) fine fits'
                (covers target all) in
            (
              some target,
              channels',
              rw (tick_channels, e, e', e'') refl,
              (fits'', size' ∙ size, held),
            )
      ]

  run_ticks-Fits :
      (ticks : List (ℕ × List (Option (VideoFrame R)))) (channels : List (Channel R))
      → All AreFine ticks
      → All Fits channels
      → length channels ≡ 4
      → (channels' : List (Channel R)) × (run_ticks Q ticks channels ≡ some channels')
        × All Fits channels'
        × (length channels' ≡ 4)
  unfolding run_ticks
  run_ticks-Fits [] channels fine fits four = (channels, refl, fits, four)
  run_ticks-Fits ((t, inputs) ∷ ticks) channels ((size, fine), fines) fits four =
      let (target, next, e, (fits', size', held)) =
        tick_channels-Outcome t inputs channels (size ∙ sym four) fine fits in
      let (end, e', fits'', four') = run_ticks-Fits ticks next fines fits' (size' ∙ four) in
      (end, rw (run_ticks, e) e', fits'', four')

  -- The frames that are stored after a tick have the settings of what is put out.
  pub stored_alike :
      (ticks : List (ℕ × List (Option (VideoFrame R)))) (tick : ℕ × List (Option (VideoFrame R)))
      → All AreFine ticks
      → AreFine tick
      → (channels : List (Channel R)) × (target : Option PictureSettings) × (channels' : List
          (Channel R))
        × (run_ticks Q ticks new_channels ≡ some channels)
        × (tick_channels Q tick.0 tick.1 channels ≡ some (target, channels'))
        × (length channels' ≡ 4)
        × AreAt target channels'
  unfolding new_channels replicate
  stored_alike ticks (t, inputs) fine (size, good) =
      let (channels, e, fits, four) =
        run_ticks-Fits ticks new_channels fine (new_channels-Fits R) refl in
      let (target, channels', e', (_, size', held)) =
        tick_channels-Outcome t inputs channels (size ∙ sym four) good fits in
      (channels, target, channels', e, e', size' ∙ four, held)
