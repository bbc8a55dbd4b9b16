-- ===== src/VideoMixer/Targets.antt =====
-- The sizes of the pictures that src/module/video_mixer.rs mixes.
use mixlab.Prelude.{
  ◌≡◌, refl, true, Option, none, some, Bool-cases, inl, inr, arith, sym, some_inj, subst,
}
use mixlab.Codec.Picture.{PictureSettings, same_settings}
use mixlab.Media.{Rational, MediaTime, after}
use mixlab.Video.Scale.{Scaling, DynamicScaler, Scaled, as_given, drawn, new_scaler, scale}
use mixlab.Video.Scale.Parts.{ScalingLaws}
use mixlab.Video.Scale.Fits.{Owns, scale_draws}
use mixlab.VideoMixer.Sizes.{IsFine, Covers, same-Covers, scaled_picture-HasSides}
use mixlab.VideoMixer.{
  VideoFrame, StoredFrame, Channel, frame_of, retarget, rescale, store, receive, has_output,
}

-- A scaler whose own frame has its output's settings.
abbrev pub Serves : DynamicScaler → Type 0
Serves d = Owns d.output d.scale × IsFine d.output

same_settings_refl : (a : PictureSettings) → same_settings a a ≡ true
unfolding same_settings
same_settings_refl a = ground arith

pub same_settings_trans :
    (a b c : PictureSettings)
    → same_settings a b ≡ true
    → same_settings b c ≡ true
    → same_settings a c ≡ true
unfolding same_settings
same_settings_trans a b c e f = ground arith

-- What a scaler gives for a picture: one of its output's settings.
abbrev Scales : DynamicScaler → PictureSettings → Scaled × DynamicScaler → Type 0
Scales d input (result, d') =
    Serves d'
    × (d'.output ≡ d.output)
    × IsFine (frame_of result input)
    × (same_settings (frame_of result input) d.output ≡ true)

module _ {Q : Scaling} (laws : ScalingLaws Q) where
  scale-Scales :
      (d : DynamicScaler) (input : PictureSettings)
      → Serves d
      → IsFine input
      → Covers d.output input
      → (given : Scaled × DynamicScaler) × (scale Q d input ≡ some given) × Scales d input given
  unfolding scale frame_of
  scale-Scales d input (owns, fine) good covers = elim (Bool-cases (same_settings input d.output)) [
    | inl e ↦ ((as_given, d), rw (scale, e) refl, ((owns, fine), refl, good, e))
    | inr e ↦
        let (w, h, w', h', _, _, known) = good in
        let (_, _, v, g, _, _, known_out) = fine in
        let outcome =
          scale_draws laws d input owns e (omega arith, omega arith) (omega arith, omega arith)
            (omega arith, omega arith) known known_out in
        let (setting, part, scaled, _, _, _, _, owns') =
          outcome.1 (scaled_picture-HasSides laws d.output input fine good covers) in
        (
          (drawn setting part, record d { scale = some setting }),
          scaled,
          (
            (owns', fine),
            refl,
            subst IsFine (sym owns') fine,
            subst (λ p. same_settings p d.output ≡ true) (sym owns') (same_settings_refl d.output),
          ),
        )
  ]

module _ {R : Rational} where
  -- The picture of an input, when it has one.
  abbrev pub IsFineInput : Option (VideoFrame R) → Type 0
  IsFineInput none = Unit {0}
  IsFineInput (some video) = IsFine video.decoded

  abbrev pub Holds : Option (StoredFrame R) → PictureSettings → Type 0
  Holds none target = Unit {0}
  Holds (some st) target = IsFine st.frame × (same_settings st.frame target ≡ true)

  -- The target holds the frame that is stored.
  abbrev pub CoversStored : PictureSettings → Option (StoredFrame R) → Type 0
  CoversStored target none = Unit {0}
  CoversStored target (some st) = Covers target st.frame

  -- The target holds the picture that a channel has in a tick.
  abbrev pub CoversChannel :
      PictureSettings → Option (VideoFrame R) → Option (StoredFrame R) → Type 0
  CoversChannel target none stored = CoversStored target stored
  CoversChannel target (some video) stored = Covers target video.decoded

  -- The frame that is stored has the settings of the output of the channel's scaler.
  abbrev pub FitsIn : Option (StoredFrame R) → Option DynamicScaler → Type 0
  FitsIn stored none = stored ≡ none
  FitsIn stored (some d) = Serves d × Holds stored d.output

  abbrev pub Fits : Channel R → Type 0
  Fits ch = FitsIn ch.stored ch.scaler

  -- The channel has a scaler to these settings.
  abbrev pub IsAt : PictureSettings → Channel R → Type 0
  IsAt target ch =
      (d : DynamicScaler) × (ch.scaler ≡ some d)
      × Serves d
      × (same_settings d.output target ≡ true)
      × Holds ch.stored d.output

module _ {R : Rational} where
  pub Fits-IsFine :
      (stored : Option (StoredFrame R)) (scaler : Option DynamicScaler)
      → FitsIn stored scaler
      → (st : StoredFrame R) → stored ≡ some st
      → IsFine st.frame
  Fits-IsFine stored none fits st e = absurd (cc (fits, e))
  Fits-IsFine none (some d) fits st e = absurd (cc e)
  Fits-IsFine (some st') (some d) (serves, (fine, same)) st e =
      subst (λ (s : StoredFrame R). IsFine s.frame) (some_inj e) fine

module _ {Q : Scaling} (laws : ScalingLaws Q) {R : Rational} where
  retarget-IsAt :
      (d : DynamicScaler) (target : PictureSettings) (stored : Option (StoredFrame R))
      → Serves d
      → same_settings d.output target ≡ true
      → ((st : StoredFrame R) → stored ≡ some st → IsFine st.frame)
      → CoversStored d.output stored
      → (ch : Channel R) × (retarget Q d stored ≡ some ch) × IsAt target ch
  unfolding retarget
  retarget-IsAt d target none serves e fine covers =
      (record { stored = none; scaler = some d }, refl, (d, refl, serves, e, tt))
  retarget-IsAt d target (some st) serves e fine covers =
      let (given, scaled, (serves', output, good, same)) =
        scale-Scales laws d st.frame serves (fine st refl) covers in
      (
        record {
          stored = some (record st { frame = frame_of given.0 st.frame });
          scaler = some given.1;
        },
        rw (retarget, scaled) refl,
        (
          given.1,
          refl,
          serves',
          subst (λ p. same_settings p target ≡ true) (sym output) e,
          (good, subst (λ p. same_settings (frame_of given.0 st.frame) p ≡ true) (sym output) same),
        ),
      )

  -- A scaler to other settings, or none, is made anew.
  rescaled :
      (target : PictureSettings) (stored : Option (StoredFrame R)) (scaler : Option DynamicScaler)
      → IsFine target
      → FitsIn stored scaler
      → CoversStored target stored
      → (ch : Channel R) × (rescale Q (record { stored = stored; scaler = scaler }) target
          ≡ some ch)
        × IsAt target ch
  unfolding rescale has_output new_scaler
  rescaled target stored none fine fits covers =
      retarget-IsAt (new_scaler target) target stored (tt, fine) (same_settings_refl target)
        (Fits-IsFine stored none fits) covers
  rescaled target stored (some d) fine (serves, held) covers =
      elim (Bool-cases (same_settings d.output target)) [
        | inl e ↦ (
          record { stored = stored; scaler = some d },
          rw (rescale, e) refl,
          (d, refl, serves, e, held),
        )
        | inr e ↦
            let (ch, made, at) =
              retarget-IsAt (new_scaler target) target stored (tt, fine) (same_settings_refl target)
                (Fits-IsFine stored (some d) (serves, held)) covers in
            (ch, rw (rescale, e) made, at)
      ]

  store-IsAt :
      (now : MediaTime R) (video : VideoFrame R) (target : PictureSettings) (ch : Channel R)
      → IsFine video.decoded
      → Covers target video.decoded
      → IsAt target ch
      → (ch' : Channel R) × (store Q now video ch.scaler ≡ some ch') × IsAt target ch'
  unfolding store
  store-IsAt now video target ch fine covers (d, e, serves, at, held) =
      let (given, scaled, (serves', output, good, same)) =
        scale-Scales laws d video.decoded serves fine
          (same-Covers d.output target video.decoded at covers) in
      (
        record {
          stored = some (record {
            active_until = after (after now video.tick_offset) video.duration_hint;
            input_settings = video.decoded;
            frame = frame_of given.0 video.decoded;
          });
          scaler = some given.1;
        },
        rw (e, store, scaled) refl,
        (
          given.1,
          refl,
          serves',
          subst (λ p. same_settings p target ≡ true) (sym output) at,
          (
            good,
            subst (λ p. same_settings (frame_of given.0 video.decoded) p ≡ true) (sym output) same,
          ),
        ),
      )

  FitsIn-none :
      (stored : Option (StoredFrame R)) (scaler : Option DynamicScaler)
      → FitsIn stored scaler
      → FitsIn {R = R} none scaler
  FitsIn-none stored none fits = refl
  FitsIn-none stored (some d) (serves, held) = (serves, tt)

  pub receive-IsAt :
      (now : MediaTime R) (target : PictureSettings) (input : Option (VideoFrame R))
      (ch : Channel R)
      → IsFine target
      → IsFineInput input
      → Fits ch
      → CoversChannel target input ch.stored
      → (ch' : Channel R) × (receive Q now target input ch ≡ some ch') × IsAt target ch'
  unfolding receive
  receive-IsAt now target none ch fine input_fine fits covers =
      rescaled target ch.stored ch.scaler fine fits covers
  receive-IsAt now target (some video) ch fine input_fine fits covers =
      let (ch', e, at) =
        rescaled target none ch.scaler fine (FitsIn-none ch.stored ch.scaler fits) tt in
      let (ch'', e', at') = store-IsAt now video target ch' input_fine covers at in
      (ch'', rw (receive, e) e', at')
