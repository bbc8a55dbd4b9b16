-- ===== src/Input/Sound.antt =====
-- The samples that src/module/stream_input.rs plays.
use mathlib.Core.Option
use mixlab.Prelude.{
  ℕ, zero, suc, ◌-◌, ◌≡◌, ◌≤◌, refl, sym, ap, ◌∙◌, false, List, [], ◌∷◌, ◌++◌, map, Option, none,
  some, ltb, ltb→lt, not_ltb→le, ◌==◌, Bool-cases, inl, inr, arith,
}
use mixlab.Prelude.Lists.{length, take, drop, length-map, map-append}
use mixlab.Media.{Rational, MediaTime}
use mixlab.Engine.Io.{replicate}
use mixlab.Input.{
  InputMedia, AudioFrame, SourceRecv, SourceTiming, StreamInput, Filled, fill, fill_audio, retimed,
  waiting_audio, with_audio, as_list,
}

-- The next `n` of a queue, with a value that fills up when there are no more.
abbrev pub next_of {ℓ} : {A : Type ℓ} → A → ℕ → List A → List A
next_of fallback zero xs = []
next_of fallback (suc n) [] = fallback ∷ next_of fallback n []
next_of fallback (suc n) (x ∷ xs) = x ∷ next_of fallback n xs

next_of-replicate : {A : Type 0} (a : A) (n : ℕ) → next_of a n [] ≡ replicate n a
unfolding replicate
next_of-replicate a zero = refl
next_of-replicate a (suc n) = ap (λ r. a ∷ r) (next_of-replicate a n)

minus_zero : (n : ℕ) → n ≡ n - 0
minus_zero n = omega arith

minus_suc : (n k : ℕ) → n - k ≡ suc n - suc k
minus_suc n k = omega arith

suc_not_zero : (n : ℕ) → (suc n == 0) ≡ false
suc_not_zero n = ground arith

module _ {ℓ} {A : Type ℓ} where
  next_of-append :
      (a : A) (n : ℕ) (xs ys : List A)
      → length xs ≤ n
      → next_of a n (xs ++ ys) ≡ xs ++ next_of a (n - length xs) ys
  next_of-append a n [] ys h = ap (λ m. next_of a m ys) (minus_zero n)
  next_of-append a zero (x ∷ xs) ys h = absurd (omega arith)
  next_of-append a (suc n) (x ∷ xs) ys h =
      ap (λ r. x ∷ r)
        (next_of-append a n xs ys (omega arith)
          ∙ ap (λ m. xs ++ next_of a m ys) (minus_suc n (length xs)))

  next_of-take :
      (a : A) (n : ℕ) (xs ys : List A) → n ≤ length xs → next_of a n (xs ++ ys) ≡ take n xs
  next_of-take a zero xs ys h = refl
  next_of-take a (suc n) [] ys h = absurd (omega arith)
  next_of-take a (suc n) (x ∷ xs) ys h = ap (λ r. x ∷ r) (next_of-take a n xs ys (omega arith))

  drop-append :
      (n : ℕ) (xs ys : List A) → length xs ≤ n → drop n (xs ++ ys) ≡ drop (n - length xs) ys
  drop-append n [] ys h = ap (λ m. drop m ys) (minus_zero n)
  drop-append zero (x ∷ xs) ys h = absurd (omega arith)
  drop-append (suc n) (x ∷ xs) ys h =
      drop-append n xs ys (omega arith) ∙ ap (λ m. drop m ys) (minus_suc n (length xs))

  drop_inside : (n : ℕ) (xs ys : List A) → n ≤ length xs → drop n (xs ++ ys) ≡ drop n xs ++ ys
  drop_inside zero xs ys h = refl
  drop_inside (suc n) [] ys h = absurd (omega arith)
  drop_inside (suc n) (x ∷ xs) ys h = drop_inside n xs ys (omega arith)

  drop_nil : (n : ℕ) → drop {A = A} n [] ≡ []
  drop_nil zero = refl
  drop_nil (suc n) = refl

map-take {ℓ κ} :
    {A : Type ℓ} {B : Type κ} (f : A → B) (n : ℕ) (xs : List A)
    → map f (take n xs) ≡ take n (map f xs)
map-take f zero xs = refl
map-take f (suc n) [] = refl
map-take f (suc n) (x ∷ xs) = ap (λ r. f x ∷ r) (map-take f n xs)

module _ (R : Rational) (M : InputMedia) where
  -- The samples of frames, one after the other.
  abbrev pub samples : List (AudioFrame R M) → List M.Pcm
  samples [] = []
  samples (frame ∷ frames) = frame.payload ++ samples frames

  abbrev pub waiting : StreamInput R M → List M.Pcm
  waiting m = samples (as_list m.audio_frame ++ waiting_audio m.recv)

module _ {R : Rational} {M : InputMedia} where
  abbrev Plays : ℕ → List (AudioFrame R M) → Filled R M → Type 0
  Plays space frames filled =
      (filled.out ≡ next_of M.silence space (map M.convert_sample (samples R M frames)))
      × (samples R M (as_list filled.audio_frame ++ filled.rest) ≡ drop space (samples R M frames))

  fill_lem :
      (t : MediaTime R) (existing : Option ℕ) (space : ℕ) (frames : List (AudioFrame R M))
      (source : Option (SourceTiming R M))
      → Plays space frames (fill t existing space frames source)
  unfolding fill
  fill_lem t existing space [] source =
      (sym (next_of-replicate M.silence space), sym (drop_nil space))
  fill_lem t existing zero (frame ∷ frames) source = (refl, refl)
  fill_lem t existing (suc n) (frame ∷ frames) source =
      let others = samples R M frames in
      let size = length-map M.convert_sample frame.payload in
      elim (Bool-cases (ltb (suc n) (length frame.payload))) [
        | inl e ↦
            let h = ltb→lt (suc n) (length frame.payload) e in
            rw (fill, suc_not_zero n, e)
              (
                map-take M.convert_sample (suc n) frame.payload
                    ∙ (sym (
                          next_of-take M.silence (suc n) (map M.convert_sample frame.payload)
                            (map M.convert_sample others) (omega (arith, h, size)))
                        ∙ ap (next_of M.silence (suc n))
                            (sym (map-append M.convert_sample frame.payload others))),
                sym (drop_inside (suc n) frame.payload others (omega (arith, h))),
              )
        | inr e ↦
            let (played, left) =
              fill_lem t existing (suc n - length frame.payload) frames
                (retimed t existing frame source) in
            let h : length frame.payload ≤ suc n = not_ltb→le (suc n) (length frame.payload) e in
            rw (fill, suc_not_zero n, e)
              (
                ap (λ r. map M.convert_sample frame.payload ++ r) played
                    ∙ (ap
                          (λ k.
                            map M.convert_sample frame.payload
                            ++ next_of M.silence (suc n - k) (map M.convert_sample others))
                          (sym size)
                        ∙ (sym (
                              next_of-append M.silence (suc n) (map M.convert_sample frame.payload)
                                (map M.convert_sample others) (omega (arith, h, size)))
                            ∙ ap (next_of M.silence (suc n))
                                (sym (map-append M.convert_sample frame.payload others)))),
                left ∙ sym (drop-append (suc n) frame.payload others h),
              )
      ]

  -- Without waiting frames none is left but the one that is put back.
  fill-rest :
      (t : MediaTime R) (existing : Option ℕ) (space : ℕ) (put_back : Option (AudioFrame R M))
      (source : Option (SourceTiming R M))
      → (fill t existing (suc space) (as_list put_back ++ []) source).rest ≡ []
  unfolding fill
  fill-rest t existing space none source = refl
  fill-rest t existing space (some frame) source =
      elim (Bool-cases (ltb (suc space) (length frame.payload))) [
        | inl e ↦ rw (suc_not_zero space, e) refl
        | inr e ↦ rw (suc_not_zero space, e) refl
      ]

  waiting_left :
      (t : MediaTime R) (existing : Option ℕ) (space : ℕ) (put_back : Option (AudioFrame R M))
      (recv : Option (SourceRecv R M)) (source : Option (SourceTiming R M))
      → let filled = fill t existing (suc space) (as_list put_back ++ waiting_audio recv) source in
        waiting_audio (with_audio recv filled.rest) ≡ filled.rest
  unfolding waiting_audio with_audio
  waiting_left t existing space put_back none source =
      sym (fill-rest t existing space put_back source)
  waiting_left t existing space put_back (some recv) source = refl

  -- What a tick plays is the next samples of a queue: the samples of the frame that was put back and
  -- of the frames that wait, converted, and silence when there are no more. They are taken out of
  -- the queue, and the rest of it stays.
  pub samples_played :
      (t : MediaTime R) (space : ℕ) (m : StreamInput R M)
      → let (out, m') = fill_audio t space m in
        (out ≡ next_of M.silence space (map M.convert_sample (waiting R M m)))
        × (waiting R M m' ≡ drop space (waiting R M m))
  unfolding fill_audio
  samples_played t zero m = (refl, refl)
  samples_played t (suc n) m =
      let existing = Option.map (λ (s : SourceTiming R M). s.id) m.source in
      let frames = as_list m.audio_frame ++ waiting_audio m.recv in
      let filled = fill t existing (suc n) frames m.source in
      let (played, left) = fill_lem t existing (suc n) frames m.source in
      rw (fill_audio, suc_not_zero n)
        (
          played,
          ap (λ r. samples R M (as_list filled.audio_frame ++ r))
                (waiting_left t existing n m.audio_frame m.recv m.source)
              ∙ left,
        )
