-- ===== src/Input/Pictures.antt =====
-- The pictures that src/module/stream_input.rs shows, and a whole tick of it.

use mixlab.Prelude.{
  ℕ, ◌/◌, ◌≡◌, refl, sym, ap, ◌∙◌, false, List, [], ◌∷◌, ◌++◌, map, Option, none, some, ◌==◌,
  Bool-cases, inl, inr,
}
use mixlab.Prelude.Lists.{drop}
use mixlab.Prelude.Int.{pos}
use mixlab.Media.{
  Rational, MediaTime, MediaDuration, new_time, new_duration, add_epoch, since, shorter,
  zero_duration,
}
use mixlab.Input.{
  InputMedia, VideoData, AudioFrame, PictureFrame, SourceRecv, SourceTiming, StreamInput, TickFrame,
  fill_audio, waiting_audio, waiting_video, with_audio, as_list, take_video, next_video, pop_video,
  show_video, tick_offset_of, run_tick,
}
use mixlab.Input.Sound.{samples, waiting, next_of, samples_played}

module _ (R : Rational) (M : InputMedia) where
  -- The pictures that are still to be shown.
  abbrev pub pictures : StreamInput R M → List (VideoData R M)
  pictures m =
      map (λ (f : PictureFrame R M). f.payload) (as_list m.video_frame ++ waiting_video m.recv)

  abbrev pub shown : Option (TickFrame R M) → List (VideoData R M)
  shown none = []
  shown (some frame) = frame.picture ∷ []

  -- The offset is not below zero, and not above the length of the tick.
  abbrev pub InTick : MediaDuration R → Option (TickFrame R M) → Type 0
  InTick tick_duration none = Unit {0}
  InTick tick_duration (some frame) =
      (shorter frame.tick_offset zero_duration ≡ false)
      × (shorter tick_duration frame.tick_offset ≡ false)

module _ {R : Rational} {M : InputMedia} where
  abbrev payloads : List (PictureFrame R M) → List (VideoData R M)
  payloads = map (λ (f : PictureFrame R M). f.payload)

  -- Taking a frame keeps the order of the pictures, and the sound.
  abbrev Takes :
      Option (PictureFrame R M)
      → Option (SourceRecv R M)
      → Option (PictureFrame R M) × Option (SourceRecv R M)
      → Type 0
  Takes video_frame recv (frame, recv') =
      (payloads (as_list video_frame ++ waiting_video recv)
        ≡ payloads (as_list frame) ++ payloads (waiting_video recv'))
      × (waiting_audio recv' ≡ waiting_audio recv)

  pop_video-Takes :
      (recv : SourceRecv R M) (frames : List (PictureFrame R M))
      → Takes none (some (record recv { video_rx = frames })) (pop_video recv frames)
  unfolding pop_video waiting_video waiting_audio
  pop_video-Takes recv [] = (refl, refl)
  pop_video-Takes recv (frame ∷ frames) = (refl, refl)

  next_video-Takes :
      (video_frame : Option (PictureFrame R M)) (recv : Option (SourceRecv R M))
      → Takes video_frame recv (next_video video_frame recv)
  unfolding next_video waiting_video waiting_audio
  next_video-Takes (some frame) recv = (refl, refl)
  next_video-Takes none none = (refl, refl)
  next_video-Takes none (some recv) = pop_video-Takes recv recv.video_rx

  -- Filling the sound keeps the pictures.
  waiting_video-with_audio :
      (recv : Option (SourceRecv R M)) (frames : List (AudioFrame R M))
      → waiting_video (with_audio recv frames) ≡ waiting_video recv
  unfolding waiting_video with_audio
  waiting_video-with_audio none frames = refl
  waiting_video-with_audio (some recv) frames = refl

  fill_audio-pictures :
      (t : MediaTime R) (space : ℕ) (m : StreamInput R M)
      → (pictures R M (fill_audio t space m).1 ≡ pictures R M m)
        × ((fill_audio t space m).1.video_frame ≡ m.video_frame)
  unfolding fill_audio
  fill_audio-pictures t space m = elim (Bool-cases (space == 0)) [
    | inl e ↦ rw (fill_audio, e) (refl, refl)
    | inr e ↦
        rw (fill_audio, e)
          (
            ap (λ l. payloads (as_list m.video_frame ++ l)) (waiting_video-with_audio m.recv _),
            refl,
          )
  ]

  tick_offset_not_negative :
      (zero_zero : shorter (zero_duration {R = R}) zero_duration ≡ false) (t : MediaTime R)
      (source : Option (SourceTiming R M)) (frame : PictureFrame R M)
      → shorter (tick_offset_of t source frame) zero_duration ≡ false
  unfolding tick_offset_of
  tick_offset_not_negative zero_zero t none frame = zero_zero
  tick_offset_not_negative zero_zero t (some source) frame =
      elim (Bool-cases
        (shorter (since (add_epoch frame.source_time source.epoch) t) zero_duration)) [
          | inl e ↦ rw (tick_offset_of, e) zero_zero
          | inr e ↦ rw (tick_offset_of, e) e
        ]

  -- A frame is shown within the tick, or put back.
  show_video_lem :
      (zero_zero : shorter (zero_duration {R = R}) zero_duration ≡ false) (t : MediaTime R)
      (d : MediaDuration R) (frame : Option (PictureFrame R M)) (m : StreamInput R M)
      → m.video_frame ≡ none
      → let (video, m') = show_video t d frame m in
        (payloads (as_list frame) ++ pictures R M m ≡ shown R M video ++ pictures R M m')
        × (waiting R M m' ≡ waiting R M m)
        × InTick R M d video
  unfolding show_video
  show_video_lem zero_zero t d none m e = (refl, refl, tt)
  show_video_lem zero_zero t d (some frame) m e =
      elim (Bool-cases (shorter d (tick_offset_of t m.source frame))) [
        | inl late ↦ rw (show_video, late, e) (refl, refl, tt)
        | inr due ↦
            rw (show_video, due)
              (refl, refl, (tick_offset_not_negative zero_zero t m.source frame, due))
      ]

  -- A tick shows the next picture of the queue, with an offset from zero to the length of the tick,
  -- or shows none and leaves the queue as it is; and it plays the next samples of the queue of
  -- sound, converted, with silence when there are no more, and leaves the rest of it. That zero is
  -- not below itself is used of the order of durations.
  pub run_tick_plays :
      (zero_zero : shorter (zero_duration {R = R}) zero_duration ≡ false) (m : StreamInput R M)
      (t space : ℕ)
      → let (video, out, m') = run_tick m t space in
        (pictures R M m ≡ shown R M video ++ pictures R M m')
        × InTick R M (new_duration (pos (space / 2)) (pos 44100)) video
        × (out ≡ next_of M.silence space (map M.convert_sample (waiting R M m)))
        × (waiting R M m' ≡ drop space (waiting R M m))
  unfolding run_tick take_video
  run_tick_plays zero_zero m t space =
      let engine_time = new_time {R = R} (pos t) (pos 44100) in
      let d = new_duration {R = R} (pos (space / 2)) (pos 44100) in
      let (frame, taken) = take_video m in
      let (queue, sound) = next_video-Takes m.video_frame m.recv in
      let unheard : waiting R M taken ≡ waiting R M m =
        ap (λ l. samples R M (as_list m.audio_frame ++ l)) sound in
      let (out, filled) = fill_audio engine_time space taken in
      let (same, none_back) = fill_audio-pictures engine_time space taken in
      let (played, left) = samples_played engine_time space taken in
      let (shows, untouched, in_tick) =
        show_video_lem zero_zero engine_time d frame filled none_back in
      (
        queue ∙ (ap (λ l. payloads (as_list frame) ++ l) (sym same) ∙ shows),
        in_tick,
        played ∙ ap (λ l. next_of M.silence space (map M.convert_sample l)) unheard,
        untouched ∙ (left ∙ ap (drop space) unheard),
      )
